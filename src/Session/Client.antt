-- ===== src/Session/Client.antt =====
-- src/session_interface.cpp: what a storage of sessions sees of a request and its response.
use cppcms.Prelude.{[], false, Bool, true, false, [], if◌then◌else◌, ◌==◌, Bytes, length}

-- `cookie` is what get_session_cookie finds in the request, `temp_cookie` what set_session_cookie
-- was last given, and `dropped` whether clear_session_cookie has told the client to drop its cookie.
pub record Client : Type 0 where
  pub cookie : Bytes
  pub temp_cookie : Bytes
  pub dropped : Bool

-- set_session_cookie(data)
unfoldable pub set_session_cookie : Bytes → Client → Client
set_session_cookie content c = record c { temp_cookie = content }

unfoldable pub clear_session_cookie : Client → Client
clear_session_cookie c = if length c.cookie == 0 then c else record c { dropped = true }

-- The client at its next request, which sends the cookie that it was given.
abbrev pub next_request : Client → Client
next_request c = record { cookie = c.temp_cookie; temp_cookie = []; dropped = false }

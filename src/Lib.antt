-- ===== src/Lib.antt =====
-- A model of the core of CppCMS, a C++ web framework: the code that reads and writes untrusted
-- text, and the cache that pages share.
--
-- A request comes in as bytes. The header parser cuts its header block into logical lines
-- (private/http_parser.h), the helpers of private/http_protocol.h take the lines apart, the request
-- (src/http_request.cpp) reads its cookies with them and the values of a form with urldecode
-- (src/util.cpp), the multipart parser (private/multipart_parser.h) the
-- uploaded files, and the encoding layer (src/encoding.cpp) tests that a
-- value is valid text in the charset of the page, through the decoder of UTF-8
-- (private/utf_iterator.h) or a table of bytes (private/encoding_validators.h). On the way out,
-- `escape` and urlencode make a text safe in a page or a link, and the memory cache
-- (src/cache_storage.cpp) keeps the page with the triggers that drop it again.
--
-- HTML that a user wrote goes through the XSS filter (src/xss.cpp). It cuts the text into parts,
-- parses the tags and entities, matches closing tags with open ones, and asks its rules about each
-- part: either to accept or refuse the text, or to write what is left of it with the rest removed or
-- escaped. The filter takes the rules as a record of functions, which the tables of class rules fill;
-- one kind of validator in them is the parser of URIs.
--
-- Between requests a session keeps the values of an application (src/session_interface.cpp). They
-- are encoded as one text, which goes into a cookie (src/session_cookies.cpp), signed with HMAC
-- (src/hmac_encryptor.cpp, src/crypto.cpp) or encrypted (src/aes_encryptor.cpp) and written in
-- base64 (src/base64.cpp), or onto the server (src/session_memory_storage.cpp) under a random id
-- (src/session_sid.cpp); src/session_dual.cpp chooses. Each layer meets the next through an interface
-- with its promises: Session.Encryptor, Session.Storage and Session.Api. The theorem about
-- session_interface is proved from them, and the implementations fill them. A value of another type
-- is turned into a text by an archive (src/archive.cpp), with traits for each type.
--
-- What stands where. A definition has the name that the function has in the code; the parts of
-- a long function have names of their own.
--   Prelude           tests, byte strings, shifts, and association lists with byte strings as keys
--   Utf8, Utf16       private/utf_iterator.h: `next`, `validate`, `encode`, `width`
--   Charset           private/encoding_validators.h: a set of refused bytes for each charset, and
--                     the one loop that they share
--   Encoding          src/encoding.cpp: the comparison of names, the table, `valid`,
--                     `validate_or_filter`
--   Base64            src/base64.cpp: `encode` and `decode` with their tables and sizes
--   Url, Html         src/util.cpp: `urlencode`, `urldecode`, `escape`
--   Http.Protocol     private/http_protocol.h: `skip_ws`, `tocken`, `unquote`, `quote`, `compare`
--   Http.Parser       private/http_parser.h: class parser with `getc`, `ungetc`, `step`. The child
--                     Machine is an abstract machine over the unread text, and Refines compares
--   Http.Scanner, Http.ContentType
--                     src/http_content_type.cpp: `parse`, and the steps that it shares with the
--                     next
--   Http.PartHeader, Http.Multipart
--                     private/multipart_parser.h: process_header, and class multipart_parser with
--                     `consume`; its children are the search for a boundary, the content of
--                     a part, a body in pieces, and a whole form
--   Http.Form, Http.Cookies
--                     src/http_request.cpp: parse_form_urlencoded; read_key_value, parse_cookies
--   Cache             src/cache_storage.cpp: class mem_cache with all of its operations. The child
--                     Invariant says what ties its five structures together
--   Multimap          std::multimap, which the cache and the session storage keep of their times
--   Crypto            src/crypto.cpp: hexadecimal keys (Hex) and class hmac (Mac); private/tohex.h
--   Session.HmacCipher, Session.AesCipher
--                     the two encryptors; the digest and the block cipher are arguments
--   Session.Client    what the classes below see of a request and its response
--   Session.Cookies, Session.Sid, Session.Dual, Session.MemoryStorage
--                     the classes session_cookies, session_sid, session_dual,
--                     session_memory_storage with `save`, `load`, `clear` or `remove`
--   Session.Packing   save_data and load_data of src/session_interface.cpp
--   Session.Exposed   update_exposed of src/session_interface.cpp; its child Mirror says what the
--                     client sees
--   Session.Interface the other members of class session_interface; `load` and `save` are in its
--                     child Saving
--   Xss               src/xss.cpp: the parts of a text, the tests of characters, and the rules as
--                     the filter sees them
--   Xss.Split         split_to_parts; its children are the form of the parts, and that a part is
--                     split off again in front of any text
--   Xss.Properties, Xss.Parse
--                     validate_property_value and parse_properties; parse_html_entity,
--                     parse_html_tag and parse_part
--   Xss.Nesting       validate_nesting; its child Xhtml compares it with a stack of names
--   Xss.Validate      validate_entry_by_rules, and `validate` behind the encoding
--   Xss.Filter        `validate`, validate_and_filter_if_invalid and `filter`; what is written is in
--                     its children Done (the rules), Origin (where a part comes from), Clean and
--                     Output
--   Xss.RuleSet       private/c_string.h and class rules: the two tables, and all that changes them
--   Xss.Uri           class uri_parser, with combinators for `&&`, `||`, loops and save points; its
--                     child Reference has `uri`, `parse` and uri_validator_functor
--   Archive           src/archive.cpp: class archive. Traits are the traits of
--                     cppcms/archive_traits.h for strings, sizes, pairs and containers
--   Tests             the theorems at concrete inputs, and runs
--
-- Representation. A `char` is the number of its byte, below 256: where the code has a signed char,
-- a byte of 128 or more is negative, and the tests are written so that they say the same. A pair
-- of iterators is the list of the bytes between them, so a function that moves an iterator returns
-- the rest of the list. Arithmetic on uint32_t, unsigned and uint64_t wraps where it can, and an int
-- is the word of its two's complement: the sizes of base64, of the values of a session and of an
-- encrypted text are cut to 32 bits as the code cuts them. A time is a number of seconds. In the
-- cache an iterator is the key of what it points to, and the wall clock is an argument.
--
-- In the filter a part is its text, its type and its tag, where a pointer that is null is an empty
-- name, -1 is none, and the pairs and the stack are indices into the list of the parts.
--
-- Loops. Each loop over a text takes the length of the text as its fuel, and each round takes a
-- byte at least, so the length is enough; Utf8.Validate and Http.Parser.Refines have this in their
-- statements. The loop of check_limits takes the size of the cache, since each round deletes an
-- entry, and Cache.Limits shows that the loop ends because its condition fails. load_data takes the
-- length of its text as fuel, and each round takes the four bytes of a header at least; short_gc
-- makes five rounds, as in the code.
--
-- Parameters. The digest and the block cipher, random bytes, the clock, the texts of numbers that
-- C++ streams write and read, the conversions of booster::locale, the match of booster::regex, whether the allocator is short of
-- memory, and how many bytes the buffer behind an uploaded file still takes.
--
-- Not modelled: the branches of a failed allocation and the locks of the cache and the storage (each
-- operation is one step), times before 1970 and negative ages, the attributes of cookies, the
-- storages of sessions in files and behind sockets, the derivation of keys in aes_factory, md5 in
-- src/util.cpp, the rules of the filter in JSON and its old matcher of URIs, and the parts that are I/O or belong to other libraries: sockets,
-- files, processes, ciphers, regular expressions, C++ streams and locales.
mod Prelude
pub mod Utf8
pub mod Utf16
pub mod Charset
pub mod Base64
pub mod Url
pub mod Html
pub mod Http
pub mod Multimap
pub mod Archive
pub mod Cache
pub mod Crypto
pub mod Session
mod Tests
pub mod Encoding
pub mod Xss

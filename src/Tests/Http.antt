-- ===== src/Tests/Http.antt =====
-- Header text and the header parser.
use cppcms.Prelude.{◌≡◌, refl, some, true, [], ◌∷◌, ◌++◌, arith, Bytes, codes, All}
use cppcms.Http.Protocol.{compare, less, token_char, tocken}
use cppcms.Http.Protocol.Comparing.{compare-flip, flip, compare-less_trans}
use cppcms.Http.Protocol.Scanning.{tocken-split}
use cppcms.Http.Parser.{Parser, idle, got_header, step, init, unread}
use cppcms.Http.Parser.Refines.{Returns, step-Returns, init-IsValid}
use cppcms.Http.Parser.Lines.{with_comment, step-comment}

compare-less_trans_example : compare (codes "a") (codes "C") ≡ less
unfolding compare
compare-less_trans_example =
    compare-less_trans (codes "a") (codes "B") (codes "C") (omega arith) (omega arith) (omega arith)
      refl refl

compare-flip_example : compare (codes "b") (codes "A") ≡ flip (compare (codes "A") (codes "b"))
compare-flip_example = compare-flip (codes "A") (codes "b")

tocken-split_example :
    (t : Bytes) × (codes "ab;c" ≡ t ++ tocken (codes "ab;c"))
    × All (λ c. token_char c ≡ true) t
    × (tocken (tocken (codes "ab;c")) ≡ tocken (codes "ab;c"))
tocken-split_example = tocken-split (codes "ab;c")

abbrev block : Bytes
block = codes "Host: x\r\n\r\n"

step-Returns_example : Returns (init block 0) (step 100 (init block 0))
unfolding init
step-Returns_example =
    step-Returns 100 (init block 0) (init-IsValid block (omega arith)) (omega arith)

-- The inner closing bracket ends the comment.
abbrev nested : Bytes
nested = codes "A: (b (c) d\r\nE"

step-comment_example :
    (q : Parser) × (step 100 (init nested 0) ≡ some (got_header, q))
    × (q.header ≡ with_comment b'A' (codes ": ") (codes "b (c") (codes " d"))
    × (q.state ≡ idle)
    × (unread q ≡ b'E' ∷ [])
unfolding init
step-comment_example =
    step-comment 100 (init nested 0) b'A' (codes ": ") (codes "b (c") (codes " d") b'E' []
      (init-IsValid nested (omega arith)) refl refl (omega arith) (omega arith) (omega arith)
      (omega arith) (omega arith) (omega arith) (omega arith)

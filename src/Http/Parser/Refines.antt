-- ===== src/Http/Parser/Refines.antt =====
-- private/http_parser.h: the parser against the machine.
use cppcms.Http.Parser.{
  State, idle, lf_exptected, space_or_other_exptected, closing_bracket_expected,
  pass_closing_bracket_expected, Event, more_data, Parser, Round, go_on, return, getc, getc_from,
  on_char, step, unread, init,
}
use cppcms.Http.Parser.Machine
use cppcms.Http.Parser.Machine.{run_nil, run_go, run_take, run_leave, Core, next_core, run, Next}
use cppcms.Prelude.{
  ℕ, zero, suc, ◌+◌, ◌-◌, ◌%◌, ◌^◌, ◌≤◌, ◌<◌, ◌≡◌, refl, sym, ap, ◌∙◌, ◌⊎◌, inl, inr, Option, none,
  some, [], ◌∷◌, ◌++◌, arith, Bytes, length, length-append, drop, get_elem?, subst,
}

abbrev pub core : Parser → Core
core p = record { state = p.state; header = p.header }

-- How many brackets a state has open.
abbrev open_brackets : State → ℕ
open_brackets closing_bracket_expected = 1
open_brackets pass_closing_bracket_expected = 1
open_brackets _ = 0

-- How many characters a header holds at least. Where the last line end is chopped off, it is there.
abbrev header_room : State → ℕ
header_room lf_exptected = 1
header_room space_or_other_exptected = 2
header_room _ = 0

pub record IsValid (p : Parser) : Type 0 where
  pub brackets : p.bracket_counter ≡ open_brackets p.state
  pub room : header_room p.state ≤ length p.header
  pub in_body : p.body_ptr ≤ length p.body
  pub small : length p.body < 2 ^ 32
  pub none_ungot : p.ungot ≡ []

pub init-IsValid : (body : Bytes) → length body < 2 ^ 32 → IsValid (init body 0)
unfolding init
init-IsValid body small = record {
  brackets = refl;
  room = omega arith;
  in_body = omega arith;
  small = small;
  none_ungot = refl;
}

-- Reading a character, when there is one and when there is none.
abbrev Reads : Parser → Option ℕ × Parser → Type 0
Reads p (none, q) = (unread p ≡ []) × (unread q ≡ []) × IsValid q × (core q ≡ core p)
Reads p (some c, q) =
    (unread p ≡ c ∷ unread q)
    × IsValid q
    × (core q ≡ core p)
    × (0 < q.body_ptr)
    × (unread (record q { body_ptr = q.body_ptr - 1 }) ≡ unread p)

drop-get_elem? :
    (s : Bytes) (i : ℕ)
    → ((get_elem? s i ≡ none) × (drop i s ≡ []))
      ⊎ ((c : ℕ) × (get_elem? s i ≡ some c) × (drop i s ≡ c ∷ drop (suc i) s) × (suc i ≤ length s))
drop-get_elem? [] zero = inl (refl, refl)
drop-get_elem? [] (suc i) = inl (refl, refl)
drop-get_elem? (x ∷ s) zero = inr (x, refl, refl, omega arith)
drop-get_elem? (x ∷ s) (suc i) = elim (drop-get_elem? s i) [
  | inl h ↦ inl h
  | inr (c, e, f, l) ↦ inr (c, e, f, omega arith)
]

getc_from-Reads : (p : Parser) → IsValid p → Reads p (getc_from [] p)
unfolding getc_from
getc_from-Reads p v = elim (drop-get_elem? p.body p.body_ptr) [
  | inl (e, f) ↦
      subst (λ o. Reads p (from o)) (sym e)
        (
          ground arith,
          ground arith,
          record {
            brackets = v.brackets;
            room = v.room;
            in_body = omega arith;
            small = omega arith;
            none_ungot = v.none_ungot;
          },
          refl,
        )
  | inr (c, e, f, l) ↦
      subst (λ o. Reads p (from o)) (sym e)
        (
          ground arith,
          record {
            brackets = v.brackets;
            room = v.room;
            in_body = omega (arith, v.small);
            small = v.small;
            none_ungot = v.none_ungot;
          },
          refl,
          omega arith,
          ap (λ n. p.ungot ++ drop n p.body) (omega (arith, v.small)),
        )
]
  where
    from : Option ℕ → Option ℕ × Parser
    from (some c) = (some c, record p { body_ptr = (p.body_ptr + 1) % 2 ^ 32 })
    from none = (none, record p { body = []; body_ptr = 0 })

getc-Reads : (p : Parser) → IsValid p → Reads p (getc p)
unfolding getc
getc-Reads p v = subst (λ u. Reads p (getc_from u p)) (sym v.none_ungot) (getc_from-Reads p v)

-- One round of the parser against one of the machine, on a character that was just read.
abbrev RoundAgrees : ℕ → Parser → Round → Next → Type 0
RoundAgrees c p (go_on q) (Machine.go_on k) = (core q ≡ k) × (unread q ≡ unread p) × IsValid q
RoundAgrees c p (return e q) (Machine.take_it e' k) =
    (e ≡ e') × (core q ≡ k) × (unread q ≡ unread p) × IsValid q
RoundAgrees c p (return e q) (Machine.leave_it e' k) =
    (e ≡ e')
    × (core q ≡ k)
    × (unread q ≡ unread (record p { body_ptr = p.body_ptr - 1 }))
    × IsValid q
RoundAgrees c p _ _ = ⊥

on_char-RoundAgrees :
    (st : State) (c : ℕ) (p : Parser)
    → p.state ≡ st
    → IsValid p
    → 0 < p.body_ptr
    → RoundAgrees c p (on_char st c p) (next_core st p.header c)
unfolding on_char next_core
on_char-RoundAgrees idle c p e v h = ground (arith, length-append p.header (c ∷ []))
on_char-RoundAgrees _ c p e v h = ground (arith, length-append p.header (c ∷ []))

-- What a call of `step` returns.
abbrev pub Returns : Parser → Option (Event × Parser) → Type 0
Returns p none = ⊥
Returns p (some (e, q)) = IsValid q × (run (core p) (unread p) ≡ (e, core q, unread q))

Returns-run :
    (p q : Parser) (o : Option (Event × Parser))
    → run (core p) (unread p) ≡ run (core q) (unread q)
    → Returns q o
    → Returns p o
Returns-run p q none e h = h
Returns-run p q (some (ev, r)) e (v, h) = (v, e ∙ h)

module _ (fuel : ℕ) (p : Parser) (v : IsValid p) (room : length (unread p) < suc fuel)
    (ih : (q : Parser) → IsValid q → length (unread q) < fuel → Returns q (step fuel q)) where
  step_round :
      (c : ℕ) (p' : Parser) (r : Round) (n : Next)
      → unread p ≡ c ∷ unread p'
      → unread (record p' { body_ptr = p'.body_ptr - 1 }) ≡ unread p
      → core p' ≡ core p
      → next_core p.state p.header c ≡ n
      → RoundAgrees c p' r n
      → Returns p (elim r [ return e q ↦ some (e, q) | go_on q ↦ step fuel q ])
  step_round c p' (go_on q) (Machine.go_on k) e back same en (ck, u, v') =
      Returns-run p q (step fuel q) (cc (run_go (core p) k c (unread p') en))
        (ih q v' (omega (arith, ap length e, ap length u)))
  step_round c p' (return ev q) (Machine.take_it ev' k) e back same en (ee, ck, u, v') =
      (v', cc (run_take (core p) k c (unread p') ev' en))
  step_round c p' (return ev q) (Machine.leave_it ev' k) e back same en (ee, ck, u, v') =
      (v', cc (run_leave (core p) k c (unread p') ev' en))
  step_round c p' (go_on q) (Machine.take_it ev' k) e back same en x = absurd x
  step_round c p' (go_on q) (Machine.leave_it ev' k) e back same en x = absurd x
  step_round c p' (return ev q) (Machine.go_on k) e back same en x = absurd x

  step_read : (o : Option ℕ × Parser) → getc p ≡ o → Reads p o → Returns p (step (suc fuel) p)
  unfolding step
  step_read o e = λ r. subst (λ x. Returns p (from x)) (sym e) (body o r)
    where
      from : Option ℕ × Parser → Option (Event × Parser)
      from x = elim x.0 [
        | none ↦ some (more_data, x.1)
        | some c ↦ elim (on_char p.state c x.1) [
          | return ev q ↦ some (ev, q)
          | go_on q ↦ step fuel q
        ]
      ]

      body : (x : Option ℕ × Parser) → Reads p x → Returns p (from x)
      body (none, q) (up, uq, v', same) = (v', cc (run_nil (core p)))
      body (some c, q) (up, v', same, pos, back) =
          step_round c q (on_char p.state c q) (next_core p.state p.header c) up back same refl (
            subst (λ h. RoundAgrees c q (on_char p.state c q) (next_core p.state h c))
              (ap (λ k. k.header) same)
              (on_char-RoundAgrees p.state c q (ap (λ k. k.state) same) v' pos))

-- With enough fuel a call of `step` on a valid parser, whose body has fewer than 2^32 bytes, returns,
-- leaves a valid parser, and does what the machine does on the text that is still unread: the same
-- event, the same state and header, and the same text left over.
pub step-Returns :
    (fuel : ℕ) (p : Parser) → IsValid p → length (unread p) < fuel → Returns p (step fuel p)
step-Returns zero p v h = absurd (omega arith)
step-Returns (suc fuel) p v h =
    step_read fuel p v h (λ q. step-Returns fuel q) (getc p) refl (getc-Reads p v)

-- ===== src/Config/Parser/Tokens.antt =====
-- `parse` as a run over the list of the tokens of its input, with no fuel.
use raddish.Base.{
  ℕ, zero, suc, ◌<◌, Bool, true, false, List, [], ◌∷◌, Bytes, Option, none, some, ◌≡◌, refl, arith,
  length, ◌⊎◌, inl, inr, ◌∙◌, ap, sym, Bool-cases, is_zero,
}
use raddish.Config.Lexer.{TokenType, eof, error, parse_token}
use raddish.Config.Lexer.Words.{read}
use raddish.Config.Lexer.Sound.{parse_token-length}
use raddish.Config.Parser.{
  State, Verdict, accepted, bad_transition, mismatched, bottom, Step, next, halt, before_eof, step,
  parse_loop, initial, parse,
}

abbrev pub Token : Type 0
Token = TokenType × Bytes

-- After these two types `parse` returns.
abbrev pub is_final : TokenType → Bool
is_final eof = true
is_final error = true
is_final _ = false

-- The tokens of an input, up to the first final one.
pub data Lexes : Bytes → List Token → Type 0 where
  last :
      {s : Bytes} (t : TokenType) (v rest : Bytes)
      → parse_token s ≡ read t v rest
      → is_final t ≡ true
      → Lexes s ((t, v) ∷ [])
  more :
      {s : Bytes} (t : TokenType) (v rest : Bytes) {ts : List Token}
      → parse_token s ≡ read t v rest
      → is_final t ≡ false
      → Lexes rest ts
      → Lexes s ((t, v) ∷ ts)

unfoldable pub run : State → List Token → Option Verdict
run σ [] = none
run σ ((t, v) ∷ ts) = elim (step σ t v) [ next σ' ↦ run σ' ts | halt verdict ↦ some verdict ]

-- A final token ends the loop.
step_final :
    (σ : State) (t : TokenType) (v : Bytes)
    → is_final t ≡ true
    → (d : Verdict) × (step σ t v ≡ halt d)
unfolding step
step_final σ error v h = (_, refl)
step_final σ eof v h = elim (Bool-cases (before_eof σ.last)) [
  | inl e ↦ elim (Bool-cases (is_zero σ.indent_count)) [
    | inl z ↦ (accepted (bottom σ.config_stack), rw (e, z))
    | inr z ↦ (mismatched, rw (e, z))
  ]
  | inr e ↦ (bad_transition σ.last eof, rw e)
]
step_final σ _ v h = cc

-- A token that is not final takes a byte.
rest-lt :
    (s : Bytes) (t : TokenType) (v rest : Bytes)
    → parse_token s ≡ read t v rest
    → is_final t ≡ false
    → length rest < length s
rest-lt s t v rest e f = elim (parse_token-length s) [
  | inl h ↦ let q : t ≡ eof = rw e at h in cc (ap is_final q)
  | inr h ↦ rw e at h
]

pub Step-cases : (x : Step) → ((σ : State) × (x ≡ next σ)) ⊎ ((d : Verdict) × (x ≡ halt d))
Step-cases (next σ) = inl (σ, refl)
Step-cases (halt d) = inr (d, refl)

module _ (σ : State) (t : TokenType) (v : Bytes) where
  parse_loop-next :
      (fuel : ℕ) (s rest : Bytes) {σ' : State}
      → parse_token s ≡ read t v rest
      → step σ t v ≡ next σ'
      → parse_loop (suc fuel) σ s ≡ parse_loop fuel σ' rest
  unfolding parse_loop
  parse_loop-next fuel s rest e k = rw (parse_loop, e, k) (rw e)

  parse_loop-halt :
      (fuel : ℕ) (s rest : Bytes) {d : Verdict}
      → parse_token s ≡ read t v rest
      → step σ t v ≡ halt d
      → parse_loop (suc fuel) σ s ≡ some d
  unfolding parse_loop
  parse_loop-halt fuel s rest e k = rw (parse_loop, e, k)

  pub run-next :
      (ts : List Token) {σ' : State} → step σ t v ≡ next σ' → run σ ((t, v) ∷ ts) ≡ run σ' ts
  unfolding run
  run-next ts k = rw (run, k)

  pub run-halt :
      (ts : List Token) {d : Verdict} → step σ t v ≡ halt d → run σ ((t, v) ∷ ts) ≡ some d
  unfolding run
  run-halt ts k = rw (run, k)

parse_loop-run :
    (fuel : ℕ) (σ : State) {s : Bytes} {ts : List Token}
    → Lexes s ts
    → length s < fuel
    → parse_loop fuel σ s ≡ run σ ts
parse_loop-run zero σ l h = absurd (omega arith)
parse_loop-run (suc fuel) σ {s} (last t v rest e f) h =
    let (d, k) = step_final σ t v f in
    parse_loop-halt σ t v fuel s rest e k ∙ sym (run-halt σ t v [] k)
parse_loop-run (suc fuel) σ {s} (more t v rest {ts} e f l) h = elim (Step-cases (step σ t v)) [
  | inl (σ', k) ↦
      parse_loop-next σ t v fuel s rest e k
      ∙ parse_loop-run fuel σ' l (omega (arith, rest-lt s t v rest e f))
      ∙ sym (run-next σ t v ts k)
  | inr (d, k) ↦ parse_loop-halt σ t v fuel s rest e k ∙ sym (run-halt σ t v ts k)
]

-- The fuel of `parse` is enough for any list of tokens of the input.
pub parse-run : {s : Bytes} {ts : List Token} → Lexes s ts → parse s ≡ run initial ts
unfolding parse
parse-run {s} l = parse_loop-run (suc (length s)) initial l (omega arith)

abbrev Lexed : Bytes → Type 0
Lexed s = (ts : List Token) × Lexes s ts

lex_below : (n : ℕ) (s : Bytes) → length s < n → Lexed s
lex_below zero s h = absurd (omega arith)
lex_below (suc n) s h = elim (Bool-cases (is_final (parse_token s).type)) [
  | inl f ↦ (_, last _ _ _ refl f)
  | inr f ↦
      let r = parse_token s in
      let (ts, l) = lex_below n r.rest (omega (arith, rest-lt s r.type r.value r.rest refl f)) in
      ((r.type, r.value) ∷ ts, more r.type r.value r.rest refl f l)
]

-- Every input has its list of tokens.
pub lex : (s : Bytes) → (ts : List Token) × Lexes s ts
lex s = lex_below (suc (length s)) s (omega arith)

-- A list of tokens ends in a final one, so that the run over it gives a verdict.
pub run-Lexes :
    (σ : State) {s : Bytes} {ts : List Token} → Lexes s ts → (d : Verdict) × (run σ ts ≡ some d)
run-Lexes σ (last t v rest e f) = let (d, k) = step_final σ t v f in (d, run-halt σ t v [] k)
run-Lexes σ (more t v rest {ts} e f l) = elim (Step-cases (step σ t v)) [
  | inl (σ', k) ↦ let (d, r) = run-Lexes σ' l in (d, run-next σ t v ts k ∙ r)
  | inr (d, k) ↦ (d, run-halt σ t v ts k)
]

-- The loop of `parse` ends on every input, and one round more than there are bytes of input is
-- enough. It ends with a configuration that is accepted, with one of the two refusals, or with the
-- undefined use of a stack that is empty.
pub parse_total : (s : Bytes) → (d : Verdict) × (parse s ≡ some d)
parse_total s = let (ts, l) = lex s in let (d, r) = run-Lexes initial l in (d, parse-run l ∙ r)

-- ===== src/Config/Parser/Depth.antt =====
-- The depth of the stack in `NginxConfigParser::parse` of src/config_parser.cc, against its
-- `indent_count`.
use raddish.Base.{
  ℕ, zero, suc, Bool, true, false, List, [], ◌∷◌, Bytes, Option, none, some, ◌≡◌, ◌≢◌, refl, ◌∙◌,
  sym, inl, inr, pos, is_zero, if◌then◌else◌, ap, subst, Bool-cases,
}
use raddish.Config.Tree.{Statements, nil}
use raddish.Config.Lexer.{
  TokenType, normal, start, start_block, end_block, comment, statement_end, eof, error,
}
use raddish.Config.Parser.Tokens.{Token, Lexes, run, run-next, run-halt, Step-cases, parse-run}
use raddish.Config.Parser.{
  State, Verdict, accepted, bad_transition, mismatched, undefined, Step, next, halt, step, parse,
  push_token, on_top, push_block, pop_block, initial, before_normal, is_normal, before_end_block,
  before_eof, emplace_back, with_stack, put_top, put_new,
}
use raddish.Config.Parser.Filled.{
  over_closes, IsFilled, Filled, push_token-Filled, reset_child-Filled, emplace_back-IsFilled,
}

-- A stack of `d` filled blocks below the top.
abbrev Depth : List Statements → ℕ → Type 0
Depth [] d = ⊥
Depth (top ∷ []) zero = Unit
Depth (top ∷ []) (suc d) = ⊥
Depth (top ∷ parent ∷ below) zero = ⊥
Depth (top ∷ parent ∷ below) (suc d) = IsFilled parent × Depth (parent ∷ below) d

abbrev TopFilled : List Statements → Type 0
TopFilled [] = ⊥
TopFilled (top ∷ _) = IsFilled top

abbrev Safe : ℕ → State → Type 0
Safe d σ =
    Depth σ.config_stack d
    × (σ.indent_count ≡ pos d)
    × (is_normal σ.last ≡ true → TopFilled σ.config_stack)

abbrev SafeStep : ℕ → Step → Type 0
SafeStep d (next σ) = Safe d σ
SafeStep d (halt undefined) = ⊥
SafeStep d (halt _) = Unit

-- The top may change.
Depth-top :
    (a b : Statements) (below : List Statements) (d : ℕ) → Depth (a ∷ below) d → Depth (b ∷ below) d
Depth-top a b [] zero h = tt
Depth-top a b [] (suc d) h = h
Depth-top a b (parent ∷ below) zero h = h
Depth-top a b (parent ∷ below) (suc d) h = h

guard-SafeStep :
    (d : ℕ) (b : Bool) (x : Step) (r : Verdict)
    → (b ≡ true → SafeStep d x)
    → SafeStep d (halt r)
    → SafeStep d (if b then x else halt r)
guard-SafeStep d true x r h k = h refl
guard-SafeStep d false x r h k = k

put_top-SafeStep :
    (d : ℕ) (old : Statements) (o : Option Statements) (below : List Statements) (t : TokenType)
    → Filled o
    → Depth (old ∷ below) d
    → SafeStep d (with_stack (put_top o below) t (pos d))
put_top-SafeStep d old none below t f h = f
put_top-SafeStep d old (some top) below t f h = (Depth-top old top below d h, refl, λ _. f)

word-Filled :
    (b : Bool) (top : Statements) (v : Bytes)
    → (b ≡ true → IsFilled top)
    → Filled (push_token (if b then top else emplace_back top) v)
word-Filled true top v h = push_token-Filled top v (h refl)
word-Filled false top v h = push_token-Filled (emplace_back top) v (emplace_back-IsFilled top)

open-SafeStep :
    (d : ℕ) (old : Statements) (o : Option Statements) (below : List Statements)
    → Filled o
    → Depth (old ∷ below) d
    → SafeStep (suc d) (with_stack (put_new (put_top o below)) start_block (pos (suc d)))
open-SafeStep d old none below f h = f
open-SafeStep d old (some top) below f h = ((f, Depth-top old top below d h), refl, λ e. cc)

step_word-Safe :
    (d : ℕ) (stack : List Statements) (last : TokenType) (v : Bytes)
    → Depth stack d
    → (is_normal last ≡ true → TopFilled stack)
    → SafeStep d
        (step (record { config_stack = stack; last = last; indent_count = pos d }) normal v)
unfolding step on_top
step_word-Safe d [] last v h f = absurd h
step_word-Safe d (top ∷ below) last v h f =
    guard-SafeStep d (before_normal last) _ _
      (λ _. put_top-SafeStep d top _ below normal (word-Filled (is_normal last) top v f) h) tt

step_open-Safe :
    (d : ℕ) (stack : List Statements) (last : TokenType) (v : Bytes)
    → Depth stack d
    → (is_normal last ≡ true → TopFilled stack)
    → SafeStep
        (suc d)
        (step (record { config_stack = stack; last = last; indent_count = pos d }) start_block v)
unfolding step push_block on_top
step_open-Safe d [] last v h f = absurd h
step_open-Safe d (top ∷ below) last v h f =
    guard-SafeStep (suc d) (is_normal last) _ _
      (λ e. open-SafeStep d top _ below (reset_child-Filled top nil (f e)) h) tt

step_close-Safe :
    (d : ℕ) (stack : List Statements) (last : TokenType) (v : Bytes)
    → Depth stack (suc d)
    → SafeStep d (
        step (record { config_stack = stack; last = last; indent_count = pos (suc d) }) end_block v)
unfolding step pop_block
step_close-Safe d [] last v h = absurd h
step_close-Safe d (top ∷ []) last v h = absurd h
step_close-Safe d (child ∷ parent ∷ below) last v (f, h) =
    guard-SafeStep d (before_end_block last) _ _
      (λ e. put_top-SafeStep d parent _ below end_block (reset_child-Filled parent child f) h) tt

step_other-Safe :
    (d : ℕ) (σ : State) (t : TokenType) (v : Bytes)
    → t ≢ normal
    → t ≢ start_block
    → t ≢ end_block
    → Safe d σ
    → SafeStep d (step σ t v)
unfolding step
step_other-Safe d σ error v a b c h = tt
step_other-Safe d σ comment v a b c h = h
step_other-Safe d σ start v a b c h = tt
step_other-Safe d σ normal v a b c h = absurd (a refl)
step_other-Safe d σ start_block v a b c h = absurd (b refl)
step_other-Safe d σ end_block v a b c h = absurd (c refl)
step_other-Safe d σ statement_end v a b c (h, n, f) =
    guard-SafeStep d (is_normal σ.last) _ _ (λ _. (h, n, λ e. cc)) tt
step_other-Safe d σ eof v a b c h =
    guard-SafeStep d (before_eof σ.last) _ _
      (λ _. guard-SafeStep d (is_zero σ.indent_count) _ _ (λ _. tt) tt) tt

-- The depth after a token that closes no block too many.
abbrev SafeRun : ℕ → List Token → Type 0
SafeRun d ts = (σ : State) → Safe d σ → run σ ts ≢ some undefined

run-SafeStep :
    (d : ℕ) (σ : State) (t : TokenType) (v : Bytes) (ts : List Token)
    → SafeStep d (step σ t v)
    → SafeRun d ts
    → run σ ((t, v) ∷ ts) ≢ some undefined
run-SafeStep d σ t v ts h ih r = elim (Step-cases (step σ t v)) [
  | inl (σ', k) ↦ ih σ' (rw k at h) (sym (run-next σ t v ts k) ∙ r)
  | inr (verdict, k) ↦ go verdict (rw k at h) (sym (run-halt σ t v ts k) ∙ r)
]
  where
    go : (verdict : Verdict) → SafeStep d (halt verdict) → some verdict ≡ some undefined → ⊥
    go undefined q e = q
    go (accepted s) q e = cc
    go (bad_transition a b) q e = cc
    go mismatched q e = cc

module _ (σ : State) (v : Bytes) where
  word-Safe : (d : ℕ) → Safe d σ → SafeStep d (step σ normal v)
  word-Safe d (h, n, f) =
      subst
        (λ i. SafeStep d (
          step (record { config_stack = σ.config_stack; last = σ.last; indent_count = i }) normal
            v))
        (sym n) (step_word-Safe d σ.config_stack σ.last v h f)

  open-Safe : (d : ℕ) → Safe d σ → SafeStep (suc d) (step σ start_block v)
  open-Safe d (h, n, f) =
      subst
        (λ i. SafeStep (suc d) (
          step (record { config_stack = σ.config_stack; last = σ.last; indent_count = i })
            start_block v))
        (sym n) (step_open-Safe d σ.config_stack σ.last v h f)

  close-Safe : (d : ℕ) → Safe (suc d) σ → SafeStep d (step σ end_block v)
  close-Safe d (h, n, f) =
      subst
        (λ i. SafeStep d (
          step (record { config_stack = σ.config_stack; last = σ.last; indent_count = i }) end_block
            v))
        (sym n) (step_close-Safe d σ.config_stack σ.last v h)

abbrev changes_no_block : TokenType → Bool
changes_no_block normal = false
changes_no_block start_block = false
changes_no_block end_block = false
changes_no_block _ = true

other-Safe :
    (σ : State) (v : Bytes) (d : ℕ) (t : TokenType)
    → changes_no_block t ≡ true
    → Safe d σ
    → SafeStep d (step σ t v)
other-Safe σ v d t e =
    step_other-Safe d σ t v (λ p. cc (e, ap changes_no_block p))
      (λ p. cc (e, ap changes_no_block p)) (λ p. cc (e, ap changes_no_block p))

run-Safe : (d : ℕ) (ts : List Token) → over_closes d ts ≡ false → SafeRun d ts
unfolding run
run-Safe d [] o σ h = λ r. cc
run-Safe d ((normal, v) ∷ ts) o σ h =
    run-SafeStep d σ normal v ts (word-Safe σ v d h) (run-Safe d ts o)
run-Safe d ((start_block, v) ∷ ts) o σ h =
    run-SafeStep (suc d) σ start_block v ts (open-Safe σ v d h) (run-Safe (suc d) ts o)
run-Safe zero ((end_block, v) ∷ ts) o σ h = cc
run-Safe (suc d) ((end_block, v) ∷ ts) o σ h =
    run-SafeStep d σ end_block v ts (close-Safe σ v d h) (run-Safe d ts o)
run-Safe d ((start, v) ∷ ts) o σ h =
    run-SafeStep d σ start v ts (other-Safe σ v d start refl h) (run-Safe d ts o)
run-Safe d ((comment, v) ∷ ts) o σ h =
    run-SafeStep d σ comment v ts (other-Safe σ v d comment refl h) (run-Safe d ts o)
run-Safe d ((statement_end, v) ∷ ts) o σ h =
    run-SafeStep d σ statement_end v ts (other-Safe σ v d statement_end refl h) (run-Safe d ts o)
run-Safe d ((eof, v) ∷ ts) o σ h =
    run-SafeStep d σ eof v ts (other-Safe σ v d eof refl h) (run-Safe d ts o)
run-Safe d ((error, v) ∷ ts) o σ h =
    run-SafeStep d σ error v ts (other-Safe σ v d error refl h) (run-Safe d ts o)

-- `parse` runs into undefined behaviour only if some prefix of the tokens closes more blocks than
-- it opens.
pub parse-over_closes :
    {text : Bytes} {ts : List Token}
    → Lexes text ts
    → parse text ≡ some undefined
    → over_closes 0 ts ≡ true
parse-over_closes {ts} l e = elim (Bool-cases (over_closes 0 ts)) [
  | inl o ↦ o
  | inr o ↦ absurd (run-Safe 0 ts o initial (tt, refl, λ x. cc) (sym (parse-run l) ∙ e))
]

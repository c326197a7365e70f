-- ===== src/Config/RoundTrip/Sound.antt =====
-- What the parser builds on each level of its stack.
use raddish.Base.{
  Bool, true, false, List, [], ◌∷◌, ◌++◌, Bytes, ◌≡◌, refl, ◌∙◌, sym, ap, subst, Option, none, some,
  inl, inr, is_zero, if◌then◌else◌, ℤ,
}
use raddish.Config.Tree.{Statement, Statements, cons, append}
use raddish.Config.Lexer.{
  TokenType, normal, start, start_block, end_block, comment, statement_end, eof, error, parse_token,
  Read,
}
use raddish.Config.Lexer.Sound.{parse_token-normal}
use raddish.Config.Lexer.Words.{IsWord, read}
use raddish.Config.Parser.{
  State, Verdict, accepted, Step, next, halt, step, push_token, reset_child, on_top, push_block,
  pop_block, bottom, initial, before_normal, is_normal, before_end_block, before_eof, emplace_back,
  with_stack, behind, put_top, put_new,
}
use raddish.Config.Parser.Tokens.{Token, Lexes, last, more, run, run-next, run-halt, Step-cases}
use raddish.Config.Printer.Lexing.{
  AllWords, HasTokens, IsPrintable, nil_printable, cons_printable, IsPrintableStatement,
  simple_printable, block_printable,
}
use raddish.Config.RoundTrip.Build.{push_token-append}

append-IsPrintable : {s t : Statements} → IsPrintable s → IsPrintable t → IsPrintable (append s t)
append-IsPrintable nil_printable q = q
append-IsPrintable (cons_printable h p) q = cons_printable h (append-IsPrintable p q)

AllWords-concat : (ts : List Bytes) {v : Bytes} → AllWords ts → IsWord v → AllWords (ts ++ v ∷ [])
AllWords-concat [] a w = (w, tt)
AllWords-concat (t ∷ ts) (h, hs) w = (h, AllWords-concat ts hs w)

HasTokens-concat :
    (ts : List Bytes) {v : Bytes} → HasTokens ts → IsWord v → HasTokens (ts ++ v ∷ [])
HasTokens-concat [] (ne, a) w = absurd (ne refl)
HasTokens-concat (t ∷ ts) (ne, a) w = ((λ e. cc), AllWords-concat (t ∷ ts) a w)

abbrev Every : Option Statements → Type 0
Every none = Unit
Every (some s) = IsPrintable s

behind-Every :
    {x : Statement} (o : Option Statements) → IsPrintableStatement x → Every o → Every (behind x o)
behind-Every none h p = tt
behind-Every (some s) h p = cons_printable h p

push_token-Every : {s : Statements} (v : Bytes) → IsPrintable s → IsWord v → Every (push_token s v)
unfolding push_token
push_token-Every v nil_printable w = tt
push_token-Every v (cons_printable (simple_printable h) nil_printable) w =
    cons_printable (simple_printable (HasTokens-concat _ h w)) nil_printable
push_token-Every v (cons_printable (block_printable h b) nil_printable) w =
    cons_printable (block_printable (HasTokens-concat _ h w) b) nil_printable
push_token-Every v (cons_printable h (cons_printable {x = y} {s} k p)) w =
    behind-Every (push_token (cons y s) v) h (push_token-Every v (cons_printable k p) w)

reset_child-Every : {s b : Statements} → IsPrintable s → IsPrintable b → Every (reset_child s b)
unfolding reset_child
reset_child-Every nil_printable q = tt
reset_child-Every (cons_printable (simple_printable h) nil_printable) q =
    cons_printable (block_printable h q) nil_printable
reset_child-Every (cons_printable (block_printable h c) nil_printable) q =
    cons_printable (block_printable h q) nil_printable
reset_child-Every {b} (cons_printable h (cons_printable {x = y} {s} k p)) q =
    behind-Every (reset_child (cons y s) b) h (reset_child-Every (cons_printable k p) q)

-- The invariant: every block on the stack is printable.
abbrev StackInv : List Statements → Type 0
StackInv [] = Unit
StackInv (top ∷ below) = IsPrintable top × StackInv below

abbrev After : Step → Type 0
After (next σ) = StackInv σ.config_stack
After (halt (accepted s)) = IsPrintable s
After (halt _) = Unit

abbrev EveryStack : Option (List Statements) → Type 0
EveryStack none = Unit
EveryStack (some stack) = StackInv stack

with_stack-After :
    (o : Option (List Statements)) (t : TokenType) (n : ℤ) → EveryStack o → After (with_stack o t n)
with_stack-After none t n h = tt
with_stack-After (some stack) t n h = h

bottom-IsPrintable : (stack : List Statements) → StackInv stack → IsPrintable (bottom stack)
bottom-IsPrintable [] h = nil_printable
bottom-IsPrintable (root ∷ []) (h, hs) = h
bottom-IsPrintable (_ ∷ parent ∷ below) (h, hs) = bottom-IsPrintable (parent ∷ below) hs

put_top-EveryStack :
    (o : Option Statements) (below : List Statements)
    → Every o
    → StackInv below
    → EveryStack (put_top o below)
put_top-EveryStack none below p h = tt
put_top-EveryStack (some top) below p h = (p, h)

put_new-EveryStack : (o : Option (List Statements)) → EveryStack o → EveryStack (put_new o)
put_new-EveryStack none h = tt
put_new-EveryStack (some stack) h = (nil_printable, h)

on_top-EveryStack :
    (stack : List Statements) (f : Statements → Option Statements)
    → StackInv stack
    → ((s : Statements) → IsPrintable s → Every (f s))
    → EveryStack (on_top stack f)
unfolding on_top
on_top-EveryStack [] f h p = tt
on_top-EveryStack (top ∷ below) f (h, hs) p = put_top-EveryStack (f top) below (p top h) hs

push_block-EveryStack : (stack : List Statements) → StackInv stack → EveryStack (push_block stack)
unfolding push_block
push_block-EveryStack stack h =
    put_new-EveryStack (on_top stack _)
      (on_top-EveryStack stack _ h (λ s p. reset_child-Every p nil_printable))

pop_block-EveryStack : (stack : List Statements) → StackInv stack → EveryStack (pop_block stack)
unfolding pop_block
pop_block-EveryStack [] h = tt
pop_block-EveryStack (root ∷ []) h = tt
pop_block-EveryStack (child ∷ parent ∷ below) (c, (p, h)) =
    put_top-EveryStack (reset_child parent child) below (reset_child-Every p c) h

-- What a word adds: a token of the last statement, or a new statement with that token.
add_word-Every :
    (old : Bool) {s : Statements} (v : Bytes)
    → IsPrintable s
    → IsWord v
    → Every (push_token (if old then s else emplace_back s) v)
add_word-Every true v p w = push_token-Every v p w
add_word-Every false {s} v p w =
    rw (push_token-append s [] v)
      (append-IsPrintable p (cons_printable (simple_printable ((λ e. cc), (w, tt))) nil_printable))

guard-After :
    (b : Bool) (x : Step) (d : Verdict) → After x → After (halt d) → After (if b then x else halt d)
guard-After true x d h k = h
guard-After false x d h k = k

step-After :
    (σ : State) (t : TokenType) (v : Bytes)
    → StackInv σ.config_stack
    → (t ≡ normal → IsWord v)
    → After (step σ t v)
unfolding step
step-After σ error v h w = tt
step-After σ comment v h w = h
step-After σ start v h w = tt
step-After σ normal v h w =
    guard-After (before_normal σ.last) _ _
      (with_stack-After (on_top σ.config_stack _) normal σ.indent_count (
        on_top-EveryStack σ.config_stack _ h
          (λ s p. add_word-Every (is_normal σ.last) v p (w refl))))
      tt
step-After σ statement_end v h w = guard-After (is_normal σ.last) _ _ h tt
step-After σ start_block v h w =
    guard-After (is_normal σ.last) _ _
      (with_stack-After (push_block σ.config_stack) start_block _
        (push_block-EveryStack σ.config_stack h))
      tt
step-After σ end_block v h w =
    guard-After (before_end_block σ.last) _ _
      (with_stack-After (pop_block σ.config_stack) end_block _
        (pop_block-EveryStack σ.config_stack h))
      tt
step-After σ eof v h w =
    guard-After (before_eof σ.last) _ _
      (guard-After (is_zero σ.indent_count) _ _ (bottom-IsPrintable σ.config_stack h) tt) tt

-- A list of tokens with words only under the type `normal`.
IsWord-of_read :
    (s : Bytes) (t : TokenType) (v rest : Bytes)
    → parse_token s ≡ read t v rest
    → t ≡ normal
    → IsWord v
IsWord-of_read s t v rest e n = rw e at (parse_token-normal s (ap (λ (r : Read). r.type) e ∙ n))

halt-IsPrintable :
    (d : Verdict) {c : Statements} → After (halt d) → some d ≡ some (accepted c) → IsPrintable c
halt-IsPrintable (accepted s) {c} h e = let q : s ≡ c = cc e in subst IsPrintable q h
halt-IsPrintable _ h e = cc e

run_from-IsPrintable :
    (σ : State) {s : Bytes} {ts : List Token} {c : Statements}
    → Lexes s ts
    → StackInv σ.config_stack
    → run σ ts ≡ some (accepted c)
    → IsPrintable c
unfolding run
run_from-IsPrintable σ {s} (last t v rest e f) h r = elim (Step-cases (step σ t v)) [
  | inl (σ', k) ↦ cc (sym (run-next σ t v [] k) ∙ r)
  | inr (d, k) ↦
      halt-IsPrintable d (rw k at (step-After σ t v h (IsWord-of_read s t v rest e)))
        (sym (run-halt σ t v [] k) ∙ r)
]
run_from-IsPrintable σ {s} (more t v rest {ts} e f l) h r = elim (Step-cases (step σ t v)) [
  | inl (σ', k) ↦
      run_from-IsPrintable σ' l (rw k at (step-After σ t v h (IsWord-of_read s t v rest e)))
        (sym (run-next σ t v ts k) ∙ r)
  | inr (d, k) ↦
      halt-IsPrintable d (rw k at (step-After σ t v h (IsWord-of_read s t v rest e)))
        (sym (run-halt σ t v ts k) ∙ r)
]

pub run-IsPrintable :
    {s : Bytes} {ts : List Token} {c : Statements}
    → Lexes s ts
    → run initial ts ≡ some (accepted c)
    → IsPrintable c
run-IsPrintable l r = run_from-IsPrintable initial l (nil_printable, tt) r

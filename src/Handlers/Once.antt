-- ===== src/Handlers/Once.antt =====
-- A handler of src/ that returns has called `log_request` once. Here is what that means, and that it
-- holds for src/file_request_handler.cc.
use raddish.Base.{Bool, true, false, [], ◌∷◌, Bytes, Option, none, some, ◌≡◌, refl}
use raddish.Std.Outcome.{Outcome, ◌>>=◌}
use raddish.Http.{Response, Reply}
use raddish.Handlers.File.{reply_with, with_status}

abbrev pub OneMessage : Reply → Type 0
OneMessage reply = (m : Bytes) × (reply.log_messages ≡ m ∷ [])

-- The call has one message if it returns.
unfoldable pub Once {ℓ} : {A : Type ℓ} → Outcome (A × Reply) → Type 0
Once (Outcome.ok (a, reply)) = OneMessage reply
Once (Outcome.throw e) = Unit
Once Outcome.undefined = Unit

pub returned-Once {ℓ} :
    {A : Type ℓ} (a : A) (reply : Reply) → OneMessage reply → Once (Outcome.ok (a, reply))
unfolding Once
returned-Once a reply h = h

pub bind-Once {ℓ κ} :
    {A : Type ℓ} {B : Type κ} (call : Outcome A) (next : A → Outcome (B × Reply))
    → ((a : A) → Once (next a))
    → Once (call >>= next)
unfolding Once
bind-Once (Outcome.ok a) next h = h a
bind-Once (Outcome.throw e) next h = tt
bind-Once Outcome.undefined next h = tt

-- The file handler.
pub reply_with-OneMessage :
    (res : Response) (path : Bytes) (found : Bool) (content : Option Bytes)
    → OneMessage (reply_with res path found content)
reply_with-OneMessage res path found (some content) = (_, refl)
reply_with-OneMessage res path true none = (_, refl)
reply_with-OneMessage res path false none = (_, refl)

pub with_status-Once {ℓ} :
    {A : Type ℓ} (w : A) (fails : Bool) (content : Option Bytes) (reply : Reply)
    → OneMessage reply
    → Once (with_status fails content reply >>= λ reply. Outcome.ok (w, reply))
unfolding Once
with_status-Once w fails (some content) reply h = h
with_status-Once w true none reply h = tt
with_status-Once w false none reply h = h

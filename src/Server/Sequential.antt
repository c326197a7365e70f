-- ===== src/Server/Sequential.antt =====
-- The server against one that does one thing at a time.
use raddish.Base.{
  ℕ, Bool, true, false, List, [], ◌∷◌, ◌++◌, ◌≡◌, refl, sym, ◌∙◌, ap, subst, arith, some, ==_iff,
}
use raddish.Config.Settings.{ConfigInfo}
use raddish.Http.{Request, Response}
use raddish.Serve.{World, Platform, Socket, Served, answered, throws, exited, create_response}
use raddish.Serve
use raddish.Session.{
  ReadError, handle_read, handle_write, no_error, partial_message, end_of_stream, eof,
  connection_reset, other_error, write_response,
}
use raddish.Server.{
  accepting, reading, writing, State, start_accept, start, delete_session, handle_accept,
  continue_with, deliver, initial, Step, accepted, has_read, has_written, Reach, here, next,
}
use raddish.Server.Invariant.{
  Inv, Handling, Reach-Inv, taken-Handling, empty-Accounted, delete_session-Accounted,
  operation-Accounted,
}
use raddish.Server.History.{Exchange, responses_of, sent_to, Serves, Serves-append}
use raddish.Server.Owed.{writes, Ordered, During, taken-During}
use raddish.Server.Ordered.{
  start_accept-Ordered, same-Ordered, delete_session-Ordered, exchange-Ordered, sent-During,
}

stopped :
    (xs : List Exchange) (σ : State) → Ordered xs σ → Ordered xs (record σ { running = false })
stopped xs σ h = record { owed = h.owed; split = h.split; current = h.current; unused = h.unused }

handle_accept-Ordered :
    (n : ℕ) (xs : List Exchange) (failed : Bool) (σ : State)
    → Handling n σ 0
    → During n [] xs σ
    → Ordered xs (handle_accept n failed σ)
unfolding handle_accept start writes
handle_accept-Ordered n xs true σ a h =
    start_accept-Ordered xs _ (delete_session-Accounted n 0 σ a)
      (delete_session-Ordered n xs σ 0 [] a h)
handle_accept-Ordered n xs false σ a h =
    start_accept-Ordered xs _ (operation-Accounted n 0 (reading n) σ refl refl a)
      (same-Ordered n xs σ 0 _ a h (λ m. refl))

handle_accept-world :
    (n : ℕ) (failed : Bool) (σ : State) → (handle_accept n failed σ).world ≡ σ.world
unfolding handle_accept start start_accept delete_session
handle_accept-world n true σ = refl
handle_accept-world n false σ = refl

own_write : (n : ℕ) (response : Response) → writes n (writing n response ∷ []) ≡ response ∷ []
unfolding writes
own_write n response = rw ((==_iff n n).1 refl) refl

initial-Ordered : (w : World) → Ordered [] (initial w)
unfolding initial responses_of sent_to writes
initial-Ordered w =
    start_accept-Ordered [] _ (empty-Accounted w)
      (record { owed = λ n. []; split = λ n. refl; current = λ n e. refl; unused = λ n l. refl })

module _ (p : Platform) (config : ConfigInfo) (sockets : ℕ → Socket) where
  -- A history of requests that a server which does one thing at a time answers, with this world
  -- behind it; each session was sent its responses of it, in order, but for the one being written.
  pub record Explained (w : World) (σ : State) : Type 0 where
    pub history : List Exchange
    pub serves : Serves p config sockets w history σ.world
    pub ordered : Ordered history σ

  idle-Explained :
      (w : World) (n : ℕ) (xs : List Exchange) (σ τ : State)
      → Serves p config sockets w xs σ.world
      → Handling n σ 1
      → During n [] xs σ
      → σ ≡ τ
      → Explained w τ
  idle-Explained w n xs σ τ s a h e =
      subst (Explained w) e
        (record { history = xs; serves = s; ordered = same-Ordered n xs σ 1 _ a h (λ m. refl) })

  stopped-Explained :
      (w : World) (n : ℕ) (xs : List Exchange) (σ τ : State)
      → Serves p config sockets w xs σ.world
      → Handling n σ 1
      → During n [] xs σ
      → record σ { running = false } ≡ τ
      → Explained w τ
  stopped-Explained w n xs σ τ s a h e = subst (Explained w) e (record {
    history = xs;
    serves = s;
    ordered = stopped xs σ (same-Ordered n xs σ 1 _ a h (λ m. refl));
  })

  deleted-Explained :
      (w : World) (n : ℕ) (xs : List Exchange) (rest : List Response) (σ τ : State)
      → Serves p config sockets w xs σ.world
      → Handling n σ 1
      → During n rest xs σ
      → delete_session n σ ≡ τ
      → Explained w τ
  unfolding delete_session
  deleted-Explained w n xs rest σ τ s a h e =
      subst (Explained w) e
        (record { history = xs; serves = s; ordered = delete_session-Ordered n xs σ 1 rest a h })

  continue_with-Explained :
      (w : World) (n : ℕ) (xs : List Exchange) (request : Request) (s : Served) (σ τ : State)
      → s ≡ create_response p (sockets n) config σ.world request
      → Serves p config sockets w xs σ.world
      → Handling n σ 1
      → During n [] xs σ
      → continue_with n (write_response s) σ ≡ some τ
      → Explained w τ
  unfolding continue_with
  continue_with-Explained w n xs request (answered w' response log) σ τ q s a h e =
      subst (Explained w) (cc e) (record {
        history = xs ++ record { session = n; request = request; response = response } ∷ [];
        serves = Serves-append p config sockets w σ.world w' xs _ log s (sym q);
        ordered = exchange-Ordered n xs σ w' request response a h;
      })
  continue_with-Explained w n xs request (throws x) σ τ q s a h e =
      stopped-Explained w n xs σ τ s a h (cc e)
  continue_with-Explained w n xs request exited σ τ q s a h e =
      stopped-Explained w n xs σ τ s a h (cc e)
  continue_with-Explained w n xs request Serve.undefined σ τ q s a h e = cc e

  handle_read-Explained :
      (w : World) (n : ℕ) (xs : List Exchange) (error : ReadError) (request : Request) (σ τ : State)
      → Serves p config sockets w xs σ.world
      → Handling n σ 1
      → During n [] xs σ
      → continue_with n (handle_read p config (sockets n) σ.world error request) σ ≡ some τ
      → Explained w τ
  unfolding handle_read continue_with
  handle_read-Explained w n xs no_error request σ τ s a h e =
      continue_with-Explained w n xs request _ σ τ refl s a h e
  handle_read-Explained w n xs partial_message request σ τ s a h e =
      idle-Explained w n xs σ τ s a h (cc e)
  handle_read-Explained w n xs end_of_stream request σ τ s a h e =
      deleted-Explained w n xs [] σ τ s a h (cc e)
  handle_read-Explained w n xs eof request σ τ s a h e =
      deleted-Explained w n xs [] σ τ s a h (cc e)
  handle_read-Explained w n xs connection_reset request σ τ s a h e =
      deleted-Explained w n xs [] σ τ s a h (cc e)
  handle_read-Explained w n xs other_error request σ τ s a h e =
      deleted-Explained w n xs [] σ τ s a h (cc e)

  handle_write-Explained :
      (w : World) (n : ℕ) (xs : List Exchange) (response : Response) (failed : Bool) (σ τ : State)
      → Serves p config sockets w xs σ.world
      → Handling n σ 1
      → During n (response ∷ []) xs σ
      → continue_with n (handle_write failed) (deliver n response failed σ) ≡ some τ
      → Explained w τ
  unfolding handle_write continue_with deliver start writes
  handle_write-Explained w n xs response true σ τ s a h e =
      deleted-Explained w n xs (response ∷ []) σ τ s a h (cc e)
  handle_write-Explained w n xs response false σ τ s a h e =
      let υ = record σ { sent = σ.sent ++ (n, response) ∷ []; pending = reading n ∷ σ.pending } in
      let b : Handling n (record σ { sent = σ.sent ++ (n, response) ∷ [] }) 1 = record {
        owned = a.owned;
        single = a.single;
        fresh = a.fresh;
        listening = a.listening;
      } in
      subst (Explained w) {x = υ} (cc e) (record {
        history = xs;
        serves = s;
        ordered =
            same-Ordered n xs _ 1 (reading n ∷ σ.pending) b (sent-During n xs σ response h)
              (λ m. refl);
      })

  Step-Explained :
      (w : World) (σ τ : State) → Step p config sockets σ τ → Inv σ → Explained w σ → Explained w τ
  unfolding writes
  Step-Explained w σ τ (accepted before after n failed _ e q) a x = record {
    history = x.history;
    serves =
        subst (Serves p config sockets w x.history)
          (sym (ap (λ (υ : State). υ.world) q ∙ handle_accept-world n failed _)) x.serves;
    ordered = subst (Ordered x.history) (sym q) (
        handle_accept-Ordered n x.history failed _
          (taken-Handling σ before after (accepting n) a e 0 (omega arith))
          (taken-During x.history σ before after (accepting n) a x.ordered e));
  }
  Step-Explained w σ τ (has_read before after n error request _ e q) a x =
      handle_read-Explained w n x.history error request _ τ x.serves
        (taken-Handling σ before after (reading n) a e 1 (omega arith))
        (taken-During x.history σ before after (reading n) a x.ordered e) q
  Step-Explained w σ τ (has_written before after n response failed _ e q) a x =
      handle_write-Explained w n x.history response failed _ τ x.serves
        (taken-Handling σ before after (writing n response) a e 1 (omega arith))
        (subst (λ rs. During n rs x.history (record σ { pending = before ++ after }))
          (own_write n response)
          (taken-During x.history σ before after (writing n response) a x.ordered e))
        q

  -- In every state that the server reaches, whatever the order in which its operations complete,
  -- there is a history of requests such that a server which does one thing at a time, from the same
  -- world, answers them with the recorded responses and leaves the world of the state; and each
  -- session has been sent a front part of its responses in this history, in their order, where an
  -- allocated session lacks at most the response that is being written to it. Handlers run one at
  -- a time, and what a call that ends the process has written is left out.
  pub Reach-Explained :
      (w : World) (σ : State) → Reach p config sockets (initial w) σ → Explained w σ
  unfolding Serves initial start_accept
  Reach-Explained w σ here = record { history = []; serves = refl; ordered = initial-Ordered w }
  Reach-Explained w σ (next {τ} r step) =
      Step-Explained w τ σ step (Reach-Inv p config sockets w τ r) (Reach-Explained w τ r)

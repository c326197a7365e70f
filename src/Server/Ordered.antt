-- ===== src/Server/Ordered.antt =====
-- The responses of each session in the order of its requests, through what a handler may do.
use raddish.Base.{
  ℕ, ◌+◌, ◌≤◌, true, false, List, [], ◌∷◌, ◌++◌, ◌==◌, ==_iff, if◌then◌else◌, ◌≡◌, refl, sym, ◌∙◌,
  ap, subst, arith, append-nil, Bool-cases, inl, inr, ◌⊎◌,
}
use raddish.Http.{Request, Response}
use raddish.Serve.{World}
use raddish.Server.{Pending, writing, State, start_accept, delete_session}
use raddish.Server.Invariant.{one_if, count, Accounted, Handling, count-delete}
use raddish.Server.History.{Exchange, responses_of, sent_to, responses_of-append, sent_to-append}
use raddish.Server.Owed.{writes, Ordered, During, writes-none, append-empty}

pub start_accept-Ordered :
    (xs : List Exchange) (σ : State) → Accounted σ 0 → Ordered xs σ → Ordered xs (start_accept σ)
unfolding start_accept count writes
start_accept-Ordered xs σ a h = record {
  owed = h.owed;
  split = h.split;
  current = λ m l. current_of m l (Bool-cases (σ.next_session == m));
  unused = λ m l. h.unused m (omega (arith, l));
}
  where
    current_of :
        (m : ℕ)
        → one_if (σ.next_session == m) + count m σ.live ≡ 1
        → ((σ.next_session == m) ≡ true) ⊎ ((σ.next_session == m) ≡ false)
        → h.owed m ≡ writes m σ.pending
    current_of m l (inl e) =
        let new : σ.next_session ≤ m = ground (arith, e) in
        append-empty _ _ (sym (h.split m) ∙ h.unused m new)
        ∙ sym (writes-none m σ.pending (omega (arith, a.owned m, a.fresh m new)))
    current_of m l (inr e) = h.current m (ground (arith, e, l))

module _ (n : ℕ) (xs : List Exchange) (σ : State) where
  no_writes : (k : ℕ) → Handling n σ k → writes n σ.pending ≡ []
  no_writes k a =
      let same : (n == n) ≡ true = (==_iff _ _).1 refl in
      writes-none n σ.pending (ground (arith, same, a.owned n, a.single n))

  -- The handler started an operation, or nothing, that brings no response.
  pub same-Ordered :
      (k : ℕ) (os : List Pending)
      → Handling n σ k
      → During n [] xs σ
      → ((m : ℕ) → writes m os ≡ writes m σ.pending)
      → Ordered xs (record σ { pending = os })
  same-Ordered k os a h e = record {
    owed = h.owed;
    split = h.split;
    current = λ m l. current_of m l (Bool-cases (n == m));
    unused = h.unused;
  }
    where
      current_of :
          (m : ℕ)
          → count m σ.live ≡ 1
          → ((n == m) ≡ true) ⊎ ((n == m) ≡ false)
          → h.owed m ≡ writes m os
      current_of m l (inl f) =
          subst (λ (m : ℕ). h.owed m ≡ writes m os) ((==_iff n m).0 f)
            (h.mine ∙ sym (e n ∙ no_writes k a))
      current_of m l (inr f) = h.current m f l ∙ sym (e m)

  pub delete_session-Ordered :
      (k : ℕ) (rest : List Response)
      → Handling n σ k
      → During n rest xs σ
      → Ordered xs (delete_session n σ)
  unfolding delete_session
  delete_session-Ordered k rest a h = record {
    owed = h.owed;
    split = h.split;
    current = λ m l.
        let c = sym (count-delete m n σ.live) ∙ l in
        h.current m (ground (arith, c)) (ground (arith, c));
    unused = h.unused;
  }

  -- A new exchange, whose response is being written.
  pub exchange-Ordered :
      (w : World) (request : Request) (response : Response)
      → Handling n σ 1
      → During n [] xs σ
      → Ordered
          (xs ++ record { session = n; request = request; response = response } ∷ [])
          (record σ { world = w; pending = writing n response ∷ σ.pending })
  unfolding responses_of writes
  exchange-Ordered w request response a h = record {
    owed = λ m. if n == m then response ∷ [] else h.owed m;
    split = λ m. responses_of-append m xs _ ∙ split_of m (Bool-cases (n == m));
    current = λ m l. current_of m l (Bool-cases (n == m));
    unused = λ m l. responses_of-append m xs _ ∙ unused_of m l (Bool-cases (n == m));
  }
    where
      split_mine : (m : ℕ) → (n == m) ≡ true → responses_of m xs ≡ sent_to m σ.sent
      split_mine m e =
          h.split m
          ∙ ap (λ ys. sent_to m σ.sent ++ ys)
              (subst (λ (m : ℕ). h.owed m ≡ []) ((==_iff n m).0 e) h.mine)
          ∙ append-nil _

      writes_mine : (m : ℕ) → (n == m) ≡ true → writes m σ.pending ≡ []
      writes_mine m e =
          subst (λ (m : ℕ). writes m σ.pending ≡ []) ((==_iff n m).0 e) (no_writes 1 a)

      unused_of :
          (m : ℕ)
          → σ.next_session ≤ m
          → ((n == m) ≡ true) ⊎ ((n == m) ≡ false)
          → responses_of m xs ++ (if n == m then response ∷ [] else []) ≡ []
      unused_of m l (inl e) = absurd (omega (arith, rw e at (a.owned m), a.fresh m l))
      unused_of m l (inr e) = rw e (append-nil _ ∙ h.unused m l)

      split_of :
          (m : ℕ)
          → ((n == m) ≡ true) ⊎ ((n == m) ≡ false)
          → responses_of m xs ++ (if n == m then response ∷ [] else [])
            ≡ sent_to m σ.sent ++ (if n == m then response ∷ [] else h.owed m)
      split_of m (inl e) = rw e (ap (λ ys. ys ++ response ∷ []) (split_mine m e))
      split_of m (inr e) = rw e (append-nil _ ∙ h.split m)

      current_of :
          (m : ℕ)
          → count m σ.live ≡ 1
          → ((n == m) ≡ true) ⊎ ((n == m) ≡ false)
          → (if n == m then response ∷ [] else h.owed m)
            ≡ (if n == m then response ∷ writes m σ.pending else writes m σ.pending)
      current_of m l (inl e) = rw e (ap (λ rs. response ∷ rs) (sym (writes_mine m e)))
      current_of m l (inr e) = rw e (h.current m e l)

  -- The write of the pending response went well.
  pub sent-During :
      (response : Response)
      → During n (response ∷ []) xs σ
      → During n [] xs (record σ { sent = σ.sent ++ (n, response) ∷ [] })
  unfolding sent_to
  sent-During response h = record {
    owed = λ m. if n == m then [] else h.owed m;
    split = λ m. split_of m (Bool-cases (n == m));
    current = λ m f l. rw f (h.current m f l);
    mine = rw ((==_iff n n).1 refl) refl;
    unused = h.unused;
  }
    where
      split_of :
          (m : ℕ)
          → ((n == m) ≡ true) ⊎ ((n == m) ≡ false)
          → responses_of m xs
            ≡ sent_to m (σ.sent ++ (n, response) ∷ []) ++ (if n == m then [] else h.owed m)
      split_of m (inl e) =
          h.split m
          ∙ ap (λ ys. sent_to m σ.sent ++ ys)
              (subst (λ (m : ℕ). h.owed m ≡ response ∷ []) ((==_iff n m).0 e) h.mine)
          ∙ sym (rw (e, sent_to-append m σ.sent ((n, response) ∷ []), e) (append-nil _))
      split_of m (inr e) =
          h.split m
          ∙ sym (
              rw (e, sent_to-append m σ.sent ((n, response) ∷ []), e, append-nil (sent_to m σ.sent))
                refl)

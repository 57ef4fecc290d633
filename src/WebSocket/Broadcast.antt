-- ===== src/WebSocket/Broadcast.antt =====
-- Who gets a broadcast, and who is in the registry after it.
use mathlib.Core.List.{append-nil, append_assoc}
use taskfire.Prelude.{
  ℕ, Bool, true, false, ◌≡◌, refl, sym, ap, ◌∙◌, none, List, [], ◌∷◌, ◌++◌, map, filter, length,
  eqb, arith, if◌then◌else◌, Bool-cases, inl, inr,
}
use taskfire.WebSocket.{
  TrackedClient, ReadyState, connecting, open_, closing, closed, Frame, Action, send, Hub, find,
  remove, broadcast_one, broadcast_each, broadcast,
}
use taskfire.WebSocket.Registry.{find-delete, has, find-absent}

abbrev pub is_open : ReadyState → Bool
is_open open_ = true
is_open _ = false

abbrev pub is_gone : ReadyState → Bool
is_gone closing = true
is_gone closed = true
is_gone _ = false

abbrev pub sends : (ℕ → ReadyState) → Frame → List TrackedClient → List Action
sends ready f cs = map (λ c. send c.socket f) (filter (λ c. is_open (ready c.socket)) cs)

abbrev One : (ℕ → ReadyState) → Frame → ℕ → Hub → ReadyState → Type 0
One ready f t h st =
    ready t ≡ st
    → ((s : ℕ)
        → find s (broadcast_one ready f t h).clients
          ≡ (if (if eqb t s then is_gone st else false) then none else find s h.clients))
      × ((broadcast_one ready f t h).actions
          ≡ h.actions ++ (if is_open st then send t f ∷ [] else []))

broadcast_one_lem :
    (ready : ℕ → ReadyState) (f : Frame) (t : ℕ) (h : Hub) (st : ReadyState) → One ready f t h st
unfolding broadcast_one remove
broadcast_one_lem ready f t h open_ e =
    (λ s. ground (arith, find-delete s t h.clients), rw (e, broadcast_one) (refl))
broadcast_one_lem ready f t h connecting e = (
  λ s. ground (arith, find-delete s t h.clients),
  rw (e, broadcast_one) (sym (append-nil h.actions)),
)
broadcast_one_lem ready f t h closing e = (
  λ s. ground (arith, find-delete s t h.clients),
  rw (e, broadcast_one) (sym (append-nil h.actions)),
)
broadcast_one_lem ready f t h closed e = (
  λ s. ground (arith, find-delete s t h.clients),
  rw (e, broadcast_one) (sym (append-nil h.actions)),
)

sends-cons :
    (ready : ℕ → ReadyState) (f : Frame) (c : TrackedClient) (cs : List TrackedClient)
    → sends ready f (c ∷ cs)
      ≡ (if is_open (ready c.socket) then send c.socket f ∷ [] else []) ++ sends ready f cs
sends-cons ready f c cs = ground arith

broadcast_each_lem :
    (ready : ℕ → ReadyState) (f : Frame) (cs : List TrackedClient) (h : Hub)
    → ((s : ℕ)
        → find s (broadcast_each ready f cs h).clients
          ≡ (if (if has s cs then is_gone (ready s) else false) then none else find s h.clients))
      × ((broadcast_each ready f cs h).actions ≡ h.actions ++ sends ready f cs)
unfolding broadcast_each
broadcast_each_lem ready f [] h = ((λ s. ground arith), sym (append-nil h.actions))
broadcast_each_lem ready f (c ∷ cs) h =
    let h' = broadcast_one ready f c.socket h in
    let (clients, actions) = broadcast_each_lem ready f cs h' in
    let (one, sent) = broadcast_one_lem ready f c.socket h (ready c.socket) refl in
    (
      (λ s. ground (arith, clients s, one s)),
      actions
          ∙ ap (λ xs. xs ++ sends ready f cs) sent
          ∙ append_assoc h.actions _ _
          ∙ ap (λ xs. h.actions ++ xs) (sym (sends-cons ready f c cs)),
    )

no_clients : (cs : List TrackedClient) → eqb (length cs) 0 ≡ true → cs ≡ []
no_clients [] e = refl
no_clients (c ∷ cs) e = ground arith

-- A broadcast sends its frame once to each open client of the registry, in their order, and to
-- nobody else. A client whose socket is closing or closed is out of the registry then; every other
-- socket has the entry that it had.
pub broadcast_lem :
    (ready : ℕ → ReadyState) (f : Frame) (h : Hub)
    → ((s : ℕ)
        → find s (broadcast ready f h).clients
          ≡ (if is_gone (ready s) then none else find s h.clients))
      × ((broadcast ready f h).actions ≡ h.actions ++ sends ready f h.clients)
unfolding broadcast
broadcast_lem ready f h =
    let (clients, actions) = broadcast_each_lem ready f h.clients h in
    elim (Bool-cases (eqb (length h.clients) 0)) [
      | inl empty ↦
          let nobody = no_clients h.clients empty in
          let absent : (s : ℕ) → find s h.clients ≡ none = λ s. ap (find s) nobody in
          (
            λ s. rw empty (ground (arith, absent s)),
            rw empty (
                sym (append-nil h.actions) ∙ ap (λ cs. h.actions ++ sends ready f cs) (sym nobody)),
          )
      | inr some_left ↦
          rw some_left ((λ s. ground (arith, clients s, find-absent s h.clients)), actions)
    ]

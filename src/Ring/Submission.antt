-- ===== src/Ring/Submission.antt =====
-- include/ring.hpp: no request is lost, and none overtakes another.
use uring_sync.Base.{
  ◌≡◌, refl, ap, ap₂, sym, ◌∙◌, List, [], ◌∷◌, ◌++◌, true, Option, none, some, append_assoc,
  append-nil, Bool-cases, inl, inr,
}
use uring_sync.Ring.{Entry, Uring, get_sqe, prepare}

-- A ring with at least one entry: an added entry comes last, a submit gives the queue to the kernel
-- and leaves room.
pub record Orderly (u : Uring) : Type 0 where
  pub adds :
      (e : Entry) (s : u.State)
      → u.room s ≡ true
      → (u.queued (u.add e s) ≡ u.queued s ++ e ∷ []) × (u.given (u.add e s) ≡ u.given s)
  pub submits :
      (s : u.State)
      → let t = (u.submit s).1 in
        (u.given t ≡ u.given s ++ u.queued s) × (u.queued t ≡ []) × (u.room t ≡ true)

-- A call of the manager: a request, or `submit`.
pub data Call : Type 0 where
  prepares : Entry → Call
  submits : Call

abbrev pub requested : List Call → List Entry
requested [] = []
requested (prepares e ∷ cs) = e ∷ requested cs
requested (submits ∷ cs) = requested cs

module _ (u : Uring) where
  -- All requests in the order in which the kernel gets them.
  abbrev pub in_order : u.State → List Entry
  in_order s = u.given s ++ u.queued s

  -- The calls in turn; an exception ends them.
  pub call_each : List Call → u.State → Option u.State
  unfolding prepare
  call_each [] s = some s
  call_each (prepares e ∷ cs) s = elim (prepare u e s) [ none ↦ none | some t ↦ call_each cs t ]
  call_each (submits ∷ cs) s = call_each cs (u.submit s).1

  module _ (o : Orderly u) where
    submit-in_order : (s : u.State) → in_order (u.submit s).1 ≡ in_order s
    submit-in_order s =
        let (gave, emptied, _) = o.submits s in
        ap (λ q. u.given (u.submit s).1 ++ q) emptied ∙ append-nil (u.given (u.submit s).1) ∙ gave

    add-in_order :
        (e : Entry) (s : u.State) → u.room s ≡ true → in_order (u.add e s) ≡ in_order s ++ e ∷ []
    add-in_order e s room =
        let (queued, given) = o.adds e s room in
        ap₂ (λ x y. x ++ y) given queued ∙ sym (append_assoc (u.given s) (u.queued s) (e ∷ []))

    prepare-in_order :
        (e : Entry) (s : u.State)
        → (t : u.State) × (prepare u e s ≡ some t) × (in_order t ≡ in_order s ++ e ∷ [])
    unfolding prepare get_sqe
    prepare-in_order e s = elim (Bool-cases (u.room s)) [
      | inl room ↦ (u.add e s, rw room, add-in_order e s room)
      | inr full ↦
          let t = (u.submit s).1 in
          let room = (o.submits s).2 in
          (
            u.add e t,
            rw (full, room),
            add-in_order e t room ∙ ap (λ x. x ++ e ∷ []) (submit-in_order s),
          )
    ]

    -- Any sequence of requests and submits on a ring with at least one entry goes through without the
    -- exception, also where the queue is full in between, and the requests that the kernel got,
    -- followed by those that still wait, are those of before followed by the new ones, in order.
    pub call_each-in_order :
        (cs : List Call) (s : u.State)
        → (t : u.State) × (call_each cs s ≡ some t) × (in_order t ≡ in_order s ++ requested cs)
    unfolding call_each
    call_each-in_order [] s = (s, refl, sym (append-nil (in_order s)))
    call_each-in_order (prepares e ∷ cs) s =
        let (s₁, ran, added) = prepare-in_order e s in
        let (t, done, all) = call_each-in_order cs s₁ in
        (
          t,
          rw (ran, call_each) done,
          all
              ∙ ap (λ x. x ++ requested cs) added
              ∙ append_assoc (in_order s) (e ∷ []) (requested cs),
        )
    call_each-in_order (submits ∷ cs) s =
        let (t, done, all) = call_each-in_order cs (u.submit s).1 in
        (t, done, all ∙ ap (λ x. x ++ requested cs) (submit-in_order s))

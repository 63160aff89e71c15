-- ===== src/Juggler/Client/Pending.antt =====
-- juggler/client/client.go: a call has a RES or an EXP, never both.
use exp.Base.{
  ℕ, ◌+◌, ◌≤◌, ◌≡◌, refl, Bool, true, false, List, [], ◌∷◌, ◌++◌, Text, text_eq, text_eq_iff,
  text_eq_refl, if◌then◌else◌, arith, int_eq, ◌&&◌,
}
use exp.Juggler.Msg
use exp.Juggler.Msg.{Msg, MessageType, call_msg}
use exp.Juggler.Client.{
  new_exp, Delivery, message, expired, Client, is_pending, remove, add_pending, handle,
  handle_message, handle_expired_call, Event, added, received, timed_out, step, run,
}

-- A delivery that ends the call `key`: its result or its expiration.
abbrev pub ends : Text → Delivery → Bool
ends key (message (Msg.res m b)) = text_eq b.for key
ends key (message _) = false
ends key (expired x) = text_eq x.for key

abbrev pub ends_count : Text → List Delivery → ℕ
ends_count key [] = 0
ends_count key (d ∷ ds) = (if ends key d then 1 else 0) + ends_count key ds

-- The times that the call `key` is entered into the table.
abbrev pub added_count : Text → List Event → ℕ
added_count key [] = 0
added_count key (added k ∷ es) = (if text_eq k key then 1 else 0) + added_count key es
added_count key (_ ∷ es) = added_count key es

abbrev pub pending_count : Text → Client → ℕ
pending_count key c = if is_pending key c.results then 1 else 0

ends_count-append :
    (key : Text) (ds es : List Delivery)
    → ends_count key (ds ++ es) ≡ ends_count key ds + ends_count key es
ends_count-append key [] es = omega arith
ends_count-append key (d ∷ ds) es = omega (arith, ends_count-append key ds es)

is_pending-remove :
    (key k : Text) (ks : List Text)
    → is_pending key (remove k ks) ≡ (if text_eq k key then false else is_pending key ks)
unfolding is_pending remove
is_pending-remove key k [] = ground arith
is_pending-remove key k (j ∷ ks) =
    ground
      (arith, is_pending-remove key k ks, text_eq_iff j k, text_eq_iff j key, text_eq_iff k key)

-- The ends of a call and its place in the table together.
abbrev weight : Text → Client → ℕ
weight key c = ends_count key c.handled + pending_count key c

add_pending-weight :
    (key k : Text) (c : Client)
    → weight key (add_pending k c) ≤ (if text_eq k key then 1 else 0) + weight key c
unfolding add_pending
add_pending-weight key k c = ground (arith, text_eq_iff k key)

handle-weight :
    (key : Text) (d : Delivery) (c : Client)
    → ends key d ≡ false
    → weight key (handle d c) ≡ weight key c
unfolding handle
handle-weight key d c h = ground (arith, ends_count-append key c.handled (d ∷ []))

-- A result or an expiration is handled only as its call leaves the table.
received-weight :
    (key : Text) (m : Msg) (c : Client) → weight key (handle_message m c) ≤ weight key c
unfolding handle_message
received-weight key (Msg.res m b) c = ground (
  arith,
  is_pending-remove key b.for c.results,
  text_eq_iff b.for key,
  ends_count-append key c.handled (message (Msg.res m b) ∷ []),
)
received-weight key (Msg.err m b) c = ground (
  arith,
  is_pending-remove key b.for c.results,
  ends_count-append key c.handled (message (Msg.err m b) ∷ []),
)
received-weight key m c = omega (arith, handle-weight key (message m) c refl)

-- The message is no error about the call `key`.
abbrev pub Spares : Text → Event → Type 0
Spares key (received (Msg.err m b)) = (int_eq b.for_type call_msg && text_eq b.for key) ≡ false
Spares key _ = Unit

abbrev pub AllSpare : Text → List Event → Type 0
AllSpare key [] = Unit
AllSpare key (e ∷ es) = Spares key e × AllSpare key es

received-weight_ge :
    (key : Text) (m : Msg) (c : Client)
    → Spares key (received m)
    → weight key c ≤ weight key (handle_message m c)
unfolding handle_message
received-weight_ge key (Msg.res m b) c h = ground (
  arith,
  is_pending-remove key b.for c.results,
  text_eq_iff b.for key,
  ends_count-append key c.handled (message (Msg.res m b) ∷ []),
)
received-weight_ge key (Msg.err m b) c h = ground (
  arith,
  is_pending-remove key b.for c.results,
  ends_count-append key c.handled (message (Msg.err m b) ∷ []),
)
received-weight_ge key m c h = omega (arith, handle-weight key (message m) c refl)

add_pending-weight_ge : (key k : Text) (c : Client) → weight key c ≤ weight key (add_pending k c)
unfolding add_pending
add_pending-weight_ge key k c = ground (arith, text_eq_iff k key)

module _ (exp_msg : MessageType) where
  -- An expiration neither makes nor loses an end of a call.
  timed_out-weight :
      (key u : Text) (m : Msg.Meta) (b : Msg.CallBody) (c : Client)
      → weight key (handle_expired_call exp_msg u m b c) ≡ weight key c
  unfolding handle_expired_call
  timed_out-weight key u m b c = ground (
    arith,
    is_pending-remove key m.u c.results,
    text_eq_iff m.u key,
    ends_count-append key c.handled (expired (new_exp exp_msg u m b) ∷ []),
  )

  run-weight :
      (key : Text) (c : Client) (es : List Event)
      → weight key (run exp_msg c es) ≤ weight key c + added_count key es
  unfolding run step
  run-weight key c [] = omega arith
  run-weight key c (added k ∷ es) =
      omega (arith, run-weight key (add_pending k c) es, add_pending-weight key k c)
  run-weight key c (received m ∷ es) =
      omega (arith, run-weight key (handle_message m c) es, received-weight key m c)
  run-weight key c (timed_out u m b ∷ es) =
      omega (
        arith,
        run-weight key (handle_expired_call exp_msg u m b c) es,
        timed_out-weight key u m b c,
      )

  run-weight_ge :
      (key : Text) (c : Client) (es : List Event)
      → AllSpare key es
      → weight key c ≤ weight key (run exp_msg c es)
  unfolding run step
  run-weight_ge key c [] h = omega arith
  run-weight_ge key c (added k ∷ es) h =
      omega (arith, run-weight_ge key (add_pending k c) es h.1, add_pending-weight_ge key k c)
  run-weight_ge key c (received m ∷ es) h =
      omega (arith, run-weight_ge key (handle_message m c) es h.1, received-weight_ge key m c h.0)
  run-weight_ge key c (timed_out u m b ∷ es) h = omega (
    arith,
    run-weight_ge key (handle_expired_call exp_msg u m b c) es h.1,
    timed_out-weight key u m b c,
  )

  run-append :
      (c : Client) (es fs : List Event)
      → run exp_msg c (es ++ fs) ≡ run exp_msg (run exp_msg c es) fs
  unfolding run
  run-append c [] fs = refl
  run-append c (e ∷ es) fs = run-append (step exp_msg c e) es fs

  timed_out-gone :
      (u : Text) (m : Msg.Meta) (b : Msg.CallBody) (c : Client)
      → is_pending m.u (handle_expired_call exp_msg u m b c).results ≡ false
  unfolding handle_expired_call
  timed_out-gone u m b c = ground (arith, is_pending-remove m.u m.u c.results, text_eq_refl m.u)

  -- Whatever the interleaving, the handler has no more results and expirations of a call than the
  -- call was entered into the empty table: never both, if it was entered once.
  pub run-at_most_once :
      (key : Text) (es : List Event)
      → ends_count key (run exp_msg (record { results = []; handled = [] }) es).handled
        ≤ added_count key es
  unfolding is_pending
  run-at_most_once key es = omega (arith, run-weight key (record { results = []; handled = [] }) es)

  -- Once a call is in the table, its timeout finds that the handler has had a result of it or gives
  -- it the expiration, provided that no error about the call was received in between: never none.
  pub run-ends :
      (c : Client) (es : List Event) (u : Text) (m : Msg.Meta) (b : Msg.CallBody)
      → is_pending m.u c.results ≡ true
      → AllSpare m.u es
      → ends_count m.u c.handled + 1
        ≤ ends_count m.u (run exp_msg c (es ++ timed_out u m b ∷ [])).handled
  unfolding run step
  run-ends c es u m b pending spare =
      let d = run exp_msg c es in
      rw (run-append c es (timed_out u m b ∷ [])) (
        ground (
          arith,
          run-weight_ge m.u c es spare,
          timed_out-weight m.u u m b d,
          timed_out-gone u m b d,
        ))

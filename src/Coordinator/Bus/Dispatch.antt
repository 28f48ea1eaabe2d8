-- ===== src/Coordinator/Bus/Dispatch.antt =====
-- What emitting and dispatching guarantee.
use mathlib.Core.List.{append_assoc, append-nil}
use lightroom_sync.Common.{
  suc, ◌-◌, ◌≤◌, ◌≡◌, refl, true, false, ◌∙◌, ap, List, [], ◌∷◌, ◌++◌, arith, ltb, length,
  length-append, take, take_nil, tests, inl, inr, Bool-cases,
}
use lightroom_sync.Coordinator.Bus.{
  EventType, Event, Bus, emit, Handler, Handlers, on, handlers_of, run_handlers, dispatch,
}

pub emit_all : List Event → Bus → Bus
emit_all [] b = b
emit_all (e ∷ es) b = emit_all es (emit e b)

emit_room :
    (e : Event) (b : Bus)
    → ltb (length b.buffered) b.size ≡ true
    → emit e b ≡ record b { buffered = b.buffered ++ (e ∷ []) }
unfolding emit
emit_room e b h = rw h

emit_full : (e : Event) (b : Bus) → ltb (length b.buffered) b.size ≡ false → emit e b ≡ b
unfolding emit
emit_full e b h = rw h

-- Without a reader, emitting keeps what is buffered and appends the first events, as many as there
-- is room for; the later ones are dropped.
pub emit_all-take :
    (es : List Event) (b : Bus)
    → length b.buffered ≤ b.size
    → (emit_all es b).buffered ≡ b.buffered ++ take (b.size - length b.buffered) es
unfolding emit_all
emit_all-take [] b h = rw (take_nil, append-nil)
emit_all-take (e ∷ es) b h = elim (Bool-cases (ltb (length b.buffered) b.size)) [
  | inl room ↦
      let b' : Bus = record b { buffered = b.buffered ++ (e ∷ []) } in
      let more = length-append {0} b.buffered (e ∷ []) in
      let one : b.size - length b.buffered ≡ suc (b.size - length b'.buffered) =
        omega (tests, room, more) in
      ap (λ t. (emit_all es t).buffered) (emit_room e b room)
      ∙ emit_all-take es b' (omega (tests, room, more))
      ∙ rw (one, append_assoc)
  | inr full ↦
      let none_left : b.size - length b.buffered ≡ 0 = omega (tests, full) in
      ap (λ t. (emit_all es t).buffered) (emit_full e b full) ∙ emit_all-take es b h ∙ rw none_left
]

run_handlers-append :
    {S : Type 0} (hs ks : List (Handler S)) (e : Event) (s : S)
    → run_handlers (hs ++ ks) e s ≡ run_handlers ks e (run_handlers hs e s)
unfolding run_handlers
run_handlers-append [] ks e s = refl
run_handlers-append (h ∷ hs) ks e s = run_handlers-append hs ks e (h e s).0

handlers_of-append :
    {S : Type 0} (kind : EventType) (hs ks : Handlers S)
    → handlers_of kind (hs ++ ks) ≡ handlers_of kind hs ++ handlers_of kind ks
unfolding handlers_of
handlers_of-append kind [] ks = refl
handlers_of-append kind ((k, h) ∷ hs) ks = ground (arith, handlers_of-append kind hs ks)

-- A handler registered last runs behind the others, and only for its own type of event; what the
-- others do, a panic of theirs included, does not keep it from running.
pub dispatch-on :
    {S : Type 0} (kind : EventType) (h : Handler S) (hs : Handlers S) (e : Event) (s : S)
    → ((e.kind ≡ kind → dispatch (on kind h hs) e s ≡ (h e (dispatch hs e s)).0)
        × ((¬ (e.kind ≡ kind)) → dispatch (on kind h hs) e s ≡ dispatch hs e s))
unfolding dispatch on
dispatch-on kind h hs e s = (
  λ same. rw (handlers_of-append, run_handlers-append) (ground arith),
  λ other. rw (handlers_of-append, run_handlers-append) (ground arith),
)

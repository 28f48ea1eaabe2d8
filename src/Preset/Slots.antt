-- ===== src/Preset/Slots.antt =====
-- Each path goes its own way through a cycle: what the loops do to the entries of one path.
use lightroom_sync.Common.{
  ◌≡◌, refl, ◌∙◌, ap, Bool, Option, none, some, List, [], ◌∷◌, arith, if◌then◌else◌, Bool-cases,
  inl, inr, subst,
}
use lightroom_sync.Common.Text.{Text, text_eq, text_eq_iff, text_eq_refl}
use lightroom_sync.Common.Dict.{
  Dict, lookup, lookup-insert, lookup-erase, NodupKeys, insert-NodupKeys, erase-NodupKeys,
}
use lightroom_sync.Preset.{File, Slot, Effect}
use lightroom_sync.Preset.Paths.{is_scanned}
use lightroom_sync.Preset.Cycle.{Cycle, slot, put, at, each, scan}

module _ {ℓ} {V : Type ℓ} where
  lookup-put :
      (k j : Text) (o : Option V) (m : Dict V)
      → lookup j (put k o m) ≡ (if text_eq k j then o else lookup j m)
  unfolding put
  lookup-put k j none m = lookup-erase j k m
  lookup-put k j (some v) m = lookup-insert j k v m

  put-NodupKeys : (k : Text) (o : Option V) (m : Dict V) → NodupKeys m → NodupKeys (put k o m)
  unfolding put
  put-NodupKeys k none m u = erase-NodupKeys k m u
  put-NodupKeys k (some v) m u = insert-NodupKeys k v m u

slot-put :
    (k j : Text) (s : Slot) (c : Cycle)
    → record {
      local = lookup j (put k s.local c.local);
      network = lookup j (put k s.network c.network);
      seen = lookup j (put k s.seen c.seen);
      tomb = lookup j (put k s.tomb c.tombstone);
    }
      ≡ (if text_eq k j then s else slot j c)
slot-put k j s c = elim (Bool-cases (text_eq k j)) [
  | inl same ↦ simp (lookup-put, same)
  | inr other ↦ simp (lookup-put, other)
]

-- A round changes the slot of its own path only.
slot-at :
    (k j : Text) (f : Slot → Effect) (c : Cycle)
    → slot j (at k f c) ≡ (if text_eq k j then (f (slot j c)).slot else slot j c)
unfolding at
slot-at k j f c = elim (Bool-cases (text_eq k j)) [
  | inl same ↦
      let p : k ≡ j = (text_eq_iff k j).0 same in slot-put k j (f (slot k c)).slot c ∙ rw (same, p)
  | inr other ↦ slot-put k j (f (slot k c)).slot c ∙ rw other
]

abbrev pub through {ℓ} : {V : Type ℓ} → (V → Slot → Effect) → Option V → Slot → Slot
through f none s = s
through f (some v) s = (f v s).slot

-- A loop runs its body once for a path of its map, on the slot as it was before the loop.
pub slot-each {ℓ} :
    {V : Type ℓ} (f : Text → V → Slot → Effect) (m : Dict V) (c : Cycle) (j : Text)
    → NodupKeys m
    → slot j (each f m c) ≡ through (f j) (lookup j m) (slot j c)
unfolding each lookup
slot-each f [] c j u = refl
slot-each f ((k, v) ∷ m) c j u = elim (Bool-cases (text_eq k j)) [
  | inl same ↦
      subst
        (λ t.
          slot t (each f m (at k (f k v) c))
          ≡ through (f t) (if text_eq k t then some v else lookup t m) (slot t c))
        ((text_eq_iff k j).0 same)
        (slot-each f m (at k (f k v) c) k u.1
          ∙ rw (u.0, text_eq_refl) (slot-at k k (f k v) c ∙ rw text_eq_refl))
  | inr other ↦
      slot-each f m (at k (f k v) c) j u.1
      ∙ rw other (ap (through (f j) (lookup j m)) (slot-at k j (f k v) c ∙ rw other))
]

-- Every map of the cycle holds a path once.
pub record IsKeyed (c : Cycle) : Type 0 where
  pub local_keys : NodupKeys c.local
  pub network_keys : NodupKeys c.network
  pub seen_keys : NodupKeys c.seen
  pub tombstone_keys : NodupKeys c.tombstone

at-IsKeyed : (k : Text) (f : Slot → Effect) (c : Cycle) → IsKeyed c → IsKeyed (at k f c)
unfolding at
at-IsKeyed k f c u = record {
  local_keys = put-NodupKeys k _ c.local u.local_keys;
  network_keys = put-NodupKeys k _ c.network u.network_keys;
  seen_keys = put-NodupKeys k _ c.seen u.seen_keys;
  tombstone_keys = put-NodupKeys k _ c.tombstone u.tombstone_keys;
}

pub each-IsKeyed {ℓ} :
    {V : Type ℓ} (f : Text → V → Slot → Effect) (m : Dict V) (c : Cycle)
    → IsKeyed c
    → IsKeyed (each f m c)
unfolding each
each-IsKeyed f [] c u = u
each-IsKeyed f ((k, v) ∷ m) c u = each-IsKeyed f m _ (at-IsKeyed k (f k v) c u)

pub lookup-scan :
    (categories : List Text) (skip_json : Bool) (m : Dict File) (j : Text)
    → lookup j (scan categories skip_json m)
      ≡ (if is_scanned categories skip_json j then lookup j m else none)
unfolding scan lookup
lookup-scan categories skip_json [] j = ground arith
lookup-scan categories skip_json ((k, f) ∷ m) j =
    ground (arith, text_eq_iff k j, lookup-scan categories skip_json m j)

pub scan-NodupKeys :
    (categories : List Text) (skip_json : Bool) (m : Dict File)
    → NodupKeys m
    → NodupKeys (scan categories skip_json m)
unfolding scan
scan-NodupKeys categories skip_json [] u = tt
scan-NodupKeys categories skip_json ((k, f) ∷ m) u =
    ground (arith, lookup-scan categories skip_json m k, scan-NodupKeys categories skip_json m u.1)

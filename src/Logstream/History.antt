-- ===== src/Logstream/History.antt =====
-- The log buffer against the whole history of the messages added to it.
use mathlib.Core.List.{append_assoc, append-nil}
use lightroom_sync.Common.{
  ℕ, suc, ◌+◌, ◌-◌, ◌≤◌, ◌<◌, ◌≡◌, refl, ◌∙◌, ap, List, [], ◌∷◌, ◌++◌, arith, length, last_n,
  last_n_append, length-drop, tests, inl, inr, Bool-cases, ltb,
}
use lightroom_sync.Common.Int64.{two63}
use lightroom_sync.Common.Text.{Text}
use lightroom_sync.Logstream.{Entry, Buffer, new_entry, normalize_level, message_or_dash, push, add}

-- A message as it is handed to `Add`, with the time of the call.
pub record Message : Type 0 where
  pub level : Text
  pub text : Text
  pub time : ℕ

-- The entries of a history that starts at ID `n`.
pub number : ℕ → List Message → List Entry
number n [] = []
number n (m ∷ ms) =
    record {
      id = n;
      timestamp = m.time;
      level = normalize_level m.level;
      message = message_or_dash m.text;
    }
    ∷ number (suc n) ms

pub add_all : List Message → Buffer → Buffer
add_all [] b = b
add_all (m ∷ ms) b = add_all ms (add m.level m.text m.time b).0

entries-push :
    (e : Entry) (b : Buffer) → (push e b).entries ≡ last_n b.max_size (b.entries ++ (e ∷ []))
unfolding push
entries-push e b = elim (Bool-cases (ltb b.max_size (length (b.entries ++ (e ∷ []))))) [
  | inl full ↦ rw full
  | inr fits ↦
      let none_lost : length (b.entries ++ (e ∷ [])) - b.max_size ≡ 0 = omega (tests, fits) in
      rw (fits, none_lost)
]

max_size-push : (e : Entry) (b : Buffer) → (push e b).max_size ≡ b.max_size
unfolding push
max_size-push e b = refl

next_id-push : (e : Entry) (b : Buffer) → suc b.next_id < two63 → (push e b).next_id ≡ suc b.next_id
unfolding push
next_id-push e b h = omega arith

length-push : (e : Entry) (b : Buffer) → length (push e b).entries ≤ b.max_size
length-push e b =
    let all : List Entry = b.entries ++ (e ∷ []) in
    omega (arith, ap length (entries-push e b), length-drop {0} (length all - b.max_size) all)

-- After any messages the buffer holds the last ones of its whole history, numbered without a gap,
-- as many as fit; the older ones are gone. The IDs are assumed not to run out.
pub add_all_history :
    (ms : List Message) (b : Buffer)
    → length b.entries ≤ b.max_size
    → b.next_id + length ms < two63
    → (add_all ms b).entries ≡ last_n b.max_size (b.entries ++ number b.next_id ms)
unfolding add_all number add
add_all_history [] b h r =
    let none_lost : length b.entries - b.max_size ≡ 0 = omega arith in rw (append-nil, none_lost)
add_all_history (m ∷ ms) b h r =
    let e : Entry = new_entry m.level m.text m.time b in
    let next = next_id-push e b (omega arith) in
    let later = add_all_history ms (push e b) (length-push e b) (omega (arith, next)) in
    later ∙ rw (next, entries-push e b, last_n_append, append_assoc)

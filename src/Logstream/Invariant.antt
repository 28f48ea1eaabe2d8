-- ===== src/Logstream/Invariant.antt =====
-- What holds of the log buffer between calls: its size is bounded and its IDs are consecutive.
use lightroom_sync.Common.{
  ℕ, zero, suc, ◌+◌, ◌-◌, ◌≤◌, ◌<◌, ◌≡◌, refl, List, [], ◌∷◌, ◌++◌, arith, length, drop,
  length-append, length-drop, tests, inl, inr, Bool-cases, ltb, subst,
}
use lightroom_sync.Common.Int64.{two63}
use lightroom_sync.Common.Text.{Text, trim_space, is_empty, split}
use lightroom_sync.Logstream.{
  Entry, Buffer, new_buffer, new_entry, push, add, add_lines, infer_level, drop_cr, write,
}

-- The IDs are n, n + 1, and so on.
abbrev pub IdsFrom : ℕ → List Entry → Type 0
IdsFrom n [] = Unit
IdsFrom n (e ∷ es) = (e.id ≡ n) × IdsFrom (suc n) es

pub record IsWell (b : Buffer) : Type 0 where
  pub sized : 1 ≤ b.max_size
  pub bounded : length b.entries ≤ b.max_size
  pub started : length b.entries < b.next_id
  pub room : b.next_id < two63
  pub ids : IdsFrom (b.next_id - length b.entries) b.entries

IdsFrom-append :
    (n m : ℕ) (xs : List Entry) (e : Entry)
    → IdsFrom n xs
    → m ≡ n + length xs
    → e.id ≡ m
    → IdsFrom n (xs ++ (e ∷ []))
IdsFrom-append n m [] e h k q = omega arith
IdsFrom-append n m (x ∷ xs) e h k q = (h.0, IdsFrom-append (suc n) m xs e h.1 (omega arith) q)

IdsFrom-drop :
    (n m k : ℕ) (xs : List Entry) → IdsFrom n xs → k ≤ length xs → m ≡ n + k → IdsFrom m (drop k xs)
IdsFrom-drop n m zero xs h l q = subst (λ t. IdsFrom t xs) (omega arith) h
IdsFrom-drop n m (suc k) [] h l q = absurd (omega arith)
IdsFrom-drop n m (suc k) (x ∷ xs) h l q =
    IdsFrom-drop (suc n) m k xs h.1 (omega arith) (omega arith)

-- A new buffer is well-formed.
pub new_buffer-IsWell : (n : ℕ) → n < two63 → IsWell (new_buffer n)
unfolding new_buffer
new_buffer-IsWell n h = ground arith

module _ (e : Entry) (b : Buffer) (named : e.id ≡ b.next_id) (w : IsWell b) where
  ids_after : IdsFrom (b.next_id - length b.entries) (b.entries ++ (e ∷ []))
  ids_after = IdsFrom-append _ b.next_id b.entries e w.ids (omega (arith, w)) named

  -- An append, with the cut that follows it, keeps the buffer well-formed.
  pub push-IsWell : suc b.next_id < two63 → IsWell (push e b)
  unfolding push
  push-IsWell h = elim (Bool-cases (ltb b.max_size (length (b.entries ++ (e ∷ []))))) [
    | inl full ↦ rw full (record {
      sized = w.sized;
      bounded = omega (tests, grown, cut);
      started = omega (tests, w, grown, cut);
      room = omega arith;
      ids = IsFrom-cut (omega arith) (omega (tests, w, grown, cut));
    })
    | inr fits ↦ rw fits (record {
      sized = w.sized;
      bounded = omega (tests, fits);
      started = omega (tests, w, grown);
      room = omega arith;
      ids = subst (λ t. IdsFrom t (b.entries ++ (e ∷ []))) (omega (tests, w, grown)) ids_after;
    })
  ]
    where
      extra : ℕ
      extra = length (b.entries ++ (e ∷ [])) - b.max_size

      grown : length (b.entries ++ (e ∷ [])) ≡ length b.entries + 1
      grown = length-append b.entries (e ∷ [])

      cut : length (drop extra (b.entries ++ (e ∷ []))) ≡ length (b.entries ++ (e ∷ [])) - extra
      cut = length-drop extra (b.entries ++ (e ∷ []))

      IsFrom-cut :
          {m : ℕ}
          → extra ≤ length (b.entries ++ (e ∷ []))
          → m ≡ b.next_id - length b.entries + extra
          → IdsFrom m (drop extra (b.entries ++ (e ∷ [])))
      IsFrom-cut k q = IdsFrom-drop _ _ extra _ ids_after k q

-- Adding any message keeps the buffer well-formed, and the entry carries the next ID.
pub add-IsWell :
    (level message : Text) (now : ℕ) (b : Buffer)
    → IsWell b
    → suc b.next_id < two63
    → IsWell (add level message now b).0
unfolding add
add-IsWell level message now b w h = push-IsWell (new_entry level message now b) b refl w h

next_id-add :
    (level message : Text) (now : ℕ) (b : Buffer)
    → suc b.next_id < two63
    → (add level message now b).0.next_id ≡ suc b.next_id
unfolding add
next_id-add level message now b h = omega arith

add_lines-IsWell :
    (lines : List Text) (now : ℕ) (b : Buffer)
    → IsWell b
    → b.next_id + length lines < two63
    → IsWell (add_lines lines now b)
unfolding add_lines
add_lines-IsWell [] now b w h = w
add_lines-IsWell (raw ∷ lines) now b w h = elim (Bool-cases (is_empty (trim_space raw))) [
  | inl blank ↦ rw blank (add_lines-IsWell lines now b w (omega arith))
  | inr text ↦
      let line = trim_space raw in
      rw text (
        add_lines-IsWell lines now _ (add-IsWell (infer_level line) line now b w (omega arith))
          (omega (arith, next_id-add (infer_level line) line now b)))
]

-- Writing a chunk of log output keeps the buffer well-formed.
pub write-IsWell :
    (p : Text) (now : ℕ) (b : Buffer)
    → IsWell b
    → b.next_id + length (split 10 (drop_cr p)) < two63
    → IsWell (write p now b)
unfolding write
write-IsWell p now b w h = elim (Bool-cases (is_empty p)) [
  | inl nothing ↦ rw nothing w
  | inr something ↦ rw something (add_lines-IsWell _ now b w h)
]

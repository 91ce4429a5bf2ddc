-- ===== src/Wal/Append/Order.antt =====
-- A segment file with the highest number is the last one of the directory.
use undr.Base.{
  ℕ, ◌<◌, ◌+◌, ◌≡◌, refl, [], ◌∷◌, ◌++◌, none, some, All, All-append, All-imp, arith, nat_key,
}
use undr.Base.Map.{get, insert, remove, place}
use undr.Wal.Record.{Bytes}
use undr.Wal.Segments.{Segments}

abbrev pub Below : ℕ → Segments → Type 0
Below id segments = All (λ e. e.0 < id) segments

pub Below-snoc :
    (id : ℕ) (segments : Segments) (bytes : Bytes)
    → Below id segments
    → Below (id + 1) (segments ++ (id, bytes) ∷ [])
Below-snoc id segments bytes b =
    All-append (λ e. e.0 < id + 1) segments ((id, bytes) ∷ [])
      (All-imp (λ e h. omega arith) segments b) (omega arith, tt)

module _ (id : ℕ) where
  pub get-Below : (segments : Segments) → Below id segments → get id segments ≡ none
  unfolding get
  get-Below [] b = refl
  get-Below ((j, bytes) ∷ segments) b = ground (arith, get-Below segments b.1)

  pub get_last :
      (segments : Segments) (bytes : Bytes)
      → Below id segments
      → get id (segments ++ (id, bytes) ∷ []) ≡ some bytes
  unfolding get
  get_last [] bytes b = ground arith
  get_last ((j, old) ∷ segments) bytes b = ground (arith, get_last segments bytes b.1)

  remove_absent : (segments : Segments) → Below id segments → remove id segments ≡ segments
  unfolding remove
  remove_absent [] b = refl
  remove_absent ((j, bytes) ∷ segments) b = ground (arith, remove_absent segments b.1)

  remove_last :
      (segments : Segments) (bytes : Bytes)
      → Below id segments
      → remove id (segments ++ (id, bytes) ∷ []) ≡ segments
  unfolding remove
  remove_last [] bytes b = ground arith
  remove_last ((j, old) ∷ segments) bytes b = ground (arith, remove_last segments bytes b.1)

  place_last :
      (segments : Segments) (bytes : Bytes)
      → Below id segments
      → place id bytes segments ≡ segments ++ (id, bytes) ∷ []
  unfolding place
  place_last [] bytes b = refl
  place_last ((j, old) ∷ segments) bytes b = ground (arith, place_last segments bytes b.1)

  -- A new file, and a file with new contents, stand last.
  pub insert_absent :
      (segments : Segments) (bytes : Bytes)
      → Below id segments
      → insert id bytes segments ≡ segments ++ (id, bytes) ∷ []
  unfolding insert
  insert_absent segments bytes b =
      ground (arith, remove_absent segments b, place_last segments bytes b)

  pub insert_last :
      (segments : Segments) (old bytes : Bytes)
      → Below id segments
      → insert id bytes (segments ++ (id, old) ∷ []) ≡ segments ++ (id, bytes) ∷ []
  unfolding insert
  insert_last segments old bytes b =
      ground (arith, remove_last segments old b, place_last segments bytes b)

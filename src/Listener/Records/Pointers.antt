-- ===== src/Listener/Records/Pointers.antt =====
-- The pointers in the rows of networks, row by row.
use chain_ops.Common.{
  ◌≡◌, ◌≢◌, refl, subst, sym, List, [], ◌∷◌, map, Option, none, some, inl, inr, Bool-cases,
}
use chain_ops.Common.Int.{ℤ}
use chain_ops.Common.Text.{Text, text_eq, text_eq_iff}
use chain_ops.Chain.{int64}
use chain_ops.Db.Tables.{NetworkRow, set_pointer}
use chain_ops.Listener.Records.{pointed}

-- A row of this network has the block as its pointer and is otherwise the same; any other row is
-- the same.
pub data RowPoints (id : Text) (b : ℤ) (row row' : NetworkRow) : Type 0 where
  own : row.id ≡ id → row'.id ≡ row.id → row'.last_scanned_block ≡ b → RowPoints id b row row'
  other : row.id ≢ id → row' ≡ row → RowPoints id b row row'

abbrev pub AllPoint : Text → ℤ → List NetworkRow → List NetworkRow → Type 0
AllPoint id b [] [] = Unit
AllPoint id b [] (_ ∷ _) = ⊥
AllPoint id b (_ ∷ _) [] = ⊥
AllPoint id b (row ∷ rows) (row' ∷ rows') = RowPoints id b row row' × AllPoint id b rows rows'

-- The rows where this last block, if there is one, became the pointer of the network.
abbrev pub Points : Text → Option ℤ → List NetworkRow → List NetworkRow → Type 0
Points id none rows rows' = rows' ≡ rows
Points id (some b) rows rows' = AllPoint id (int64 b) rows rows'

set_pointer-RowPoints :
    (id : Text) (b : ℤ) (row : NetworkRow) → RowPoints id b row (set_pointer id b row)
set_pointer-RowPoints id b row = elim (Bool-cases (text_eq row.id id)) [
  | inl same ↦ rw same (own ((text_eq_iff row.id id).0 same) refl refl)
  | inr different ↦ rw different (other (λ same. cc ((text_eq_iff row.id id).1 same)) refl)
]

set_pointer-AllPoint :
    (id : Text) (b : ℤ) (rows : List NetworkRow) → AllPoint id b rows (map (set_pointer id b) rows)
set_pointer-AllPoint id b [] = tt
set_pointer-AllPoint id b (row ∷ rows) =
    (set_pointer-RowPoints id b row, set_pointer-AllPoint id b rows)

pub pointed-Points :
    (id : Text) (last : Option ℤ) (rows rows' : List NetworkRow)
    → rows' ≡ pointed id last rows
    → Points id last rows rows'
pointed-Points id none rows rows' same = same
pointed-Points id (some b) rows rows' same =
    subst (AllPoint id (int64 b) rows) (sym same) (set_pointer-AllPoint id (int64 b) rows)

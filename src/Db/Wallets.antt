-- ===== src/Db/Wallets.antt =====
-- `GetIndexedAddressToMonitor`: which addresses it returns, and which error.
use chain_ops.Common.{
  ◌≡◌, refl, subst, sym, ap, ◌∙◌, ◌⊎◌, inl, inr, List, [], ◌∷◌, ◌++◌, map, append_assoc, append-nil,
  Option, none, some,
}
use chain_ops.Common.Text.{Text}
use chain_ops.World.{Error, Result, ok, err, Result-cases, sql, select_wallets, Trace, done}
use chain_ops.Db.{IndexedAddress, Rows, Database, scan_rows, get_indexed_address_to_monitor}

-- What becomes of the rows of a query: all of them, in order; or an error, which is that of the
-- first row that does not scan, or that of the iteration where every row does.
abbrev pub Reads :
    List (Result IndexedAddress) → Option Error → Result (List IndexedAddress) → Type 0
Reads items ended (ok l) = (items ≡ map ok l) × (ended ≡ none)
Reads items ended (err e) =
    (l : List IndexedAddress) × (((items ≡ map ok l) × (ended ≡ some e))
      ⊎ ((rest : List (Result IndexedAddress)) × (items ≡ map ok l ++ err e ∷ rest)))

-- The same in front of the answer to the query.
abbrev pub Answers : Result Rows → Result (List IndexedAddress) → Type 0
Answers (err e) r = r ≡ err e
Answers (ok rows) r = Reads rows.items rows.rows_err r

module _ (db : Database) where
  scan_rows_lem :
      (acc : List IndexedAddress) (items : List (Result IndexedAddress)) (ended : Option Error)
      → (r : Result (List IndexedAddress)) × (scan_rows db acc items ended ≡ r)
        × (((l : List IndexedAddress) × (r ≡ ok (acc ++ l)) × Reads items ended (ok l))
            ⊎ ((e : Error) × (r ≡ err e) × Reads items ended (err e)))
  unfolding scan_rows
  scan_rows_lem acc [] none = (ok acc, refl, inl ([], ap ok (sym (append-nil acc)), (refl, refl)))
  scan_rows_lem acc [] (some e) = (err e, refl, inr (e, refl, ([], inl (refl, refl))))
  scan_rows_lem acc (err e ∷ items) ended = (err e, refl, inr (e, refl, ([], inr (items, refl))))
  scan_rows_lem acc (ok a ∷ items) ended =
      let (r, run, result) = scan_rows_lem (acc ++ a ∷ []) items ended in
      (
        r,
        run,
        elim result [
          | inl (l, is_l, (all, fine)) ↦
              inl
                (a ∷ l, is_l ∙ ap ok (append_assoc acc (a ∷ []) l), (ap (λ x. ok a ∷ x) all, fine))
          | inr (e, is_e, (l, inl (all, failed))) ↦
              inr (e, is_e, (a ∷ l, inl (ap (λ x. ok a ∷ x) all, failed)))
          | inr (e, is_e, (l, inr (rest, split))) ↦
              inr (e, is_e, (a ∷ l, inr (rest, ap (λ x. ok a ∷ x) split)))
        ],
      )

  -- The function makes one query and returns. An error of the query is its error. Otherwise it
  -- returns the addresses of all rows, in order; or the error of the first row that does not scan,
  -- or that of the iteration where every row does.
  pub get_indexed_address_to_monitor_lem :
      (network_id : Text) (t : Trace)
      → (r : Result (List IndexedAddress)) × (get_indexed_address_to_monitor db network_id t
          ≡ (done r, sql (select_wallets network_id) ∷ t))
        × Answers (db.query_wallets t (select_wallets network_id)) r
  unfolding get_indexed_address_to_monitor
  get_indexed_address_to_monitor_lem network_id t =
      elim (Result-cases (db.query_wallets t (select_wallets network_id))) [
        | inr (e, failed) ↦ (err e, rw failed refl, rw failed refl)
        | inl (rows, got) ↦
            let (r, run, result) = scan_rows_lem [] rows.items rows.rows_err in
            (
              r,
              rw got (ap (λ x. (done x, sql (select_wallets network_id) ∷ t)) run),
              rw got (elim result [
                | inl (l, is_l, reads) ↦ subst (Reads rows.items rows.rows_err) (sym is_l) reads
                | inr (e, is_e, reads) ↦ subst (Reads rows.items rows.rows_err) (sym is_e) reads
              ]),
            )
      ]

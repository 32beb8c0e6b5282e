-- ===== src/Logger/Derived.antt =====
-- The handlers that come from one by `WithAttrs` and `WithGroup`.
use chain_ops.Common.{
  ℕ, zero, suc, ◌+◌, ◌≡◌, ◌⊎◌, inl, inr, refl, ap, sym, subst, ◌∙◌, List, [], ◌∷◌, ◌++◌, append-nil,
  append_assoc, true, false, Bool-cases, arith,
}
use chain_ops.Common.Int.{ℤ, ◌≤ℤ◌, leb_ℤ→le, leb_ℤ→gt}
use chain_ops.Common.Text.{Text}
use chain_ops.Logger.{
  Attrs, end, attr, Std, Entry, Handler, Logs, enabled, length_attrs, make_attrs, copy_attrs,
  with_attrs, with_group, handle,
}
use chain_ops.Logger.Line.{join, level_text, value_text, fields, handle_lem}

-- A call that makes a handler from another.
pub data Derivation : Type 0 where
  by_attrs : Attrs → Derivation
  by_group : Text → Derivation

abbrev pub derive : Handler → List Derivation → Handler
derive h [] = h
derive h (by_attrs l ∷ calls) = derive (with_attrs h l) calls
derive h (by_group name ∷ calls) = derive (with_group h name) calls

append_attrs_of : Attrs → Attrs → Attrs
append_attrs_of end bs = bs
append_attrs_of (attr k v l) bs = attr k v (append_attrs_of l bs)

-- The two copies of `WithAttrs`.
copy_attrs-make :
    (a : Attrs) (n : ℕ)
    → copy_attrs 0 (make_attrs (length_attrs a + n)) a ≡ append_attrs_of a (make_attrs n)
unfolding copy_attrs make_attrs length_attrs append_attrs_of
copy_attrs-make end n = ap (λ m. copy_attrs 0 (make_attrs m) end) (sum n) ∙ nothing n
  where
    sum : (n : ℕ) → 0 + n ≡ n
    sum n = omega arith

    nothing : (n : ℕ) → copy_attrs 0 (make_attrs n) end ≡ make_attrs n
    nothing zero = refl
    nothing (suc n) = refl
copy_attrs-make (attr k v a) n =
    ap (λ m. copy_attrs 0 (make_attrs m) (attr k v a)) (sum (length_attrs a))
    ∙ ap (attr k v) (copy_attrs-make a n)
  where
    sum : (m : ℕ) → suc m + n ≡ suc (m + n)
    sum m = omega arith

copy_attrs-append :
    (a d l : Attrs)
    → copy_attrs (length_attrs a) (append_attrs_of a d) l ≡ append_attrs_of a (copy_attrs 0 d l)
unfolding copy_attrs length_attrs append_attrs_of
copy_attrs-append end d l = refl
copy_attrs-append (attr k v a) d l = ap (attr k v) (copy_attrs-append a d l)

copy_attrs-all : (l : Attrs) → copy_attrs 0 (make_attrs (length_attrs l)) l ≡ l
unfolding copy_attrs make_attrs length_attrs
copy_attrs-all end = refl
copy_attrs-all (attr k v l) = ap (attr k v) (copy_attrs-all l)

with_attrs_lem :
    (h : Handler) (l : Attrs) → with_attrs h l ≡ record h { attrs = append_attrs_of h.attrs l }
unfolding with_attrs
with_attrs_lem h l =
    ap (λ x. record h { attrs = x })
      (ap (λ x. copy_attrs (length_attrs h.attrs) x l) (copy_attrs-make h.attrs (length_attrs l))
        ∙ copy_attrs-append h.attrs (make_attrs (length_attrs l)) l
        ∙ ap (append_attrs_of h.attrs) (copy_attrs-all l))

module _ (std : Std) where
  fields-append : (a l : Attrs) → fields std (append_attrs_of a l) ≡ fields std a ++ fields std l
  unfolding append_attrs_of
  fields-append end l = refl
  fields-append (attr k v a) l = ap (λ x. (k ++ 61 ∷ value_text std v) ∷ x) (fields-append a l)

  -- The fields that calls attach; a group attaches nothing.
  abbrev pub attached : List Derivation → List Text
  attached [] = []
  attached (by_attrs l ∷ calls) = fields std l ++ attached calls
  attached (by_group name ∷ calls) = attached calls

  -- What calls keep, and the fields of the handler that they make.
  abbrev Made : Handler → Handler → List Text → Type 0
  Made h h' l =
      (h'.out ≡ h.out) × (h'.level ≡ h.level) × (fields std h'.attrs ≡ fields std h.attrs ++ l)

  derive-Made : (h : Handler) (calls : List Derivation) → Made h (derive h calls) (attached calls)
  unfolding with_group
  derive-Made h [] = (refl, refl, sym (append-nil _))
  derive-Made h (by_attrs l ∷ calls) =
      let h1 = record h { attrs = append_attrs_of h.attrs l } in
      let (out, level, all) = derive-Made h1 calls in
      subst (λ x. Made h (derive x calls) (fields std l ++ attached calls))
        (sym (with_attrs_lem h l))
        (
          out,
          level,
          all
              ∙ ap (λ x. x ++ attached calls) (fields-append h.attrs l)
              ∙ append_assoc (fields std h.attrs) (fields std l) (attached calls),
        )
  derive-Made h (by_group name ∷ calls) = derive-Made h calls

  -- The level is enabled exactly from the handler's level on.
  abbrev pub EnabledFrom : ℤ → Handler → ℤ → Type 0
  EnabledFrom least h level =
      ((enabled h level ≡ true) × (least ≤ℤ level))
      ⊎ ((enabled h level ≡ false) × ¬ (least ≤ℤ level))

  -- A handler that comes from h by any calls of WithAttrs and WithGroup writes where h writes, and
  -- is enabled from the level of h on. Whatever the buffer from the pool held, its `Handle` writes
  -- one line: the time, the level, the attributes of h, those of the calls, in their order, the
  -- message and the attributes of the record, joined by single spaces, and a newline. A group leaves
  -- no trace.
  pub handle-derive :
      (h : Handler) (calls : List Derivation) (r : Entry) (logs : Logs) (level : ℤ)
      → let text =
          join (
            std.log_time r.time
            ∷ level_text std r.level
            ∷ ((fields std h.attrs ++ attached calls) ++ r.message ∷ fields std r.attrs))
          ++ 10 ∷ [] in
        ((handle std (derive h calls) r logs).0 ≡ std.write h.out text)
        × ((handle std (derive h calls) r logs).1.written ≡ (h.out, text) ∷ logs.written)
        × EnabledFrom h.level (derive h calls) level
  unfolding enabled
  handle-derive h calls r logs level =
      let h' = derive h calls in
      let (out, least, all) = derive-Made h calls in
      let text = λ (l : List Text).
        join (std.log_time r.time ∷ level_text std r.level ∷ (l ++ r.message ∷ fields std r.attrs))
        ++ 10 ∷ [] in
      let (answer, written) = handle_lem std h' r logs in
      (
        answer
            ∙ ap (std.write h'.out) (ap text all)
            ∙ ap (λ o. std.write o (text (fields std h.attrs ++ attached calls))) out,
        written
            ∙ ap (λ l. (h'.out, text l) ∷ logs.written) all
            ∙ ap (λ o. (o, text (fields std h.attrs ++ attached calls)) ∷ logs.written) out,
        elim (Bool-cases (enabled h' level)) [
          | inl on ↦ inl (on, subst (λ x. x ≤ℤ level) least (leb_ℤ→le h'.level level on))
          | inr off ↦ inr (off, subst (λ x. ¬ (x ≤ℤ level)) least (leb_ℤ→gt h'.level level off))
        ],
      )

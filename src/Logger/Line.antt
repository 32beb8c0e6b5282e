-- ===== src/Logger/Line.antt =====
-- The line of a record: its fields, joined by single spaces.
use chain_ops.Common.{
  ℕ, zero, suc, ◌≡◌, refl, sym, ap, ◌∙◌, List, [], ◌∷◌, ◌++◌, append_assoc, append-nil, true,
  if◌then◌else◌, arith, ltb,
}
use chain_ops.Common.Int.{ℤ, pos, negsuc}
use chain_ops.Common.Text.{Text, codes, decimal, decimal_ℤ}
use chain_ops.Logger.{
  Value, string, int64, uint64, float64, bool, duration, time, group, other, Attrs, end, attr, Std,
  Logs, format, Entry, Handler, append_level, append_value, append_group, append_attr, append_attrs,
  handle,
}

-- Each text with a space before it.
abbrev pub spaced : List Text → Text
spaced [] = []
spaced (x ∷ l) = 32 ∷ x ++ spaced l

abbrev pub join : List Text → Text
join [] = []
join (x ∷ l) = x ++ spaced l

glue : (a k v s : Text) → ((a ++ k ++ 61 ∷ []) ++ v) ++ s ≡ a ++ ((k ++ 61 ∷ v) ++ s)
glue a k v s = simp append_assoc

later : (i : ℕ) → ltb 0 (suc i) ≡ true
later i = ground arith

spaced-append : (l m : List Text) → spaced (l ++ m) ≡ spaced l ++ spaced m
spaced-append [] m = refl
spaced-append (x ∷ l) m =
    ap (λ s. 32 ∷ x ++ s) (spaced-append l m) ∙ ap (λ s. 32 ∷ s) (sym (append_assoc x _ _))

module _ (std : Std) where
  -- The text of a level: slog's four levels are -4, 0, 4 and 8, and Level.String for others.
  abbrev pub level_text : ℤ → Text
  level_text (negsuc (suc (suc (suc zero)))) = codes "DEBUG"
  level_text (pos zero) = codes "INFO"
  level_text (pos (suc (suc (suc (suc zero))))) = codes "WARN"
  level_text (pos (suc (suc (suc (suc (suc (suc (suc (suc zero))))))))) = codes "ERROR"
  level_text level = std.level_string level

  -- The text of a value, and the fields key=value of attributes.
  abbrev mutual
    pub value_text : Value → Text
    value_text (string s) = s
    value_text (int64 n) = decimal_ℤ n
    value_text (uint64 n) = decimal n
    value_text (float64 x) = std.float_text x
    value_text (bool b) = if b then codes "true" else codes "false"
    value_text (duration d) = std.duration_text d
    value_text (time t) = std.rfc3339 t
    value_text (group l) = join (fields l)
    value_text (other x) = std.any_text x

    pub fields : Attrs → List Text
    fields end = []
    fields (attr k v l) = (k ++ 61 ∷ value_text v) ∷ fields l

  mutual
    unfolding append_value append_group

    append_value_lem : (buf : Text) (v : Value) → append_value std buf v ≡ buf ++ value_text v
    append_value_lem buf (string s) = refl
    append_value_lem buf (int64 n) = refl
    append_value_lem buf (uint64 n) = refl
    append_value_lem buf (float64 x) = refl
    append_value_lem buf (bool b) = refl
    append_value_lem buf (duration d) = refl
    append_value_lem buf (time t) = refl
    append_value_lem buf (group l) = append_group_lem buf l
    append_value_lem buf (other x) = refl

    append_group_lem : (buf : Text) (l : Attrs) → append_group std buf 0 l ≡ buf ++ join (fields l)
    append_group_lem buf end = sym (append-nil buf)
    append_group_lem buf (attr k v l) =
        append_group_rest (append_value std (buf ++ k ++ 61 ∷ []) v) 0 l
        ∙ ap (λ b. b ++ spaced (fields l)) (append_value_lem (buf ++ k ++ 61 ∷ []) v)
        ∙ glue buf k (value_text v) (spaced (fields l))

    append_group_rest :
        (buf : Text) (i : ℕ) (l : Attrs) → append_group std buf (suc i) l ≡ buf ++ spaced (fields l)
    append_group_rest buf i end = sym (append-nil buf)
    append_group_rest buf i (attr k v l) =
        rw (later i, append_group)
          (append_group_rest (append_value std ((buf ++ 32 ∷ []) ++ k ++ 61 ∷ []) v) (suc i) l)
        ∙ ap (λ b. b ++ spaced (fields l)) (append_value_lem ((buf ++ 32 ∷ []) ++ k ++ 61 ∷ []) v)
        ∙ glue (buf ++ 32 ∷ []) k (value_text v) (spaced (fields l))
        ∙ append_assoc buf (32 ∷ []) ((k ++ 61 ∷ value_text v) ++ spaced (fields l))

  append_attrs_lem : (buf : Text) (l : Attrs) → append_attrs std buf l ≡ buf ++ spaced (fields l)
  unfolding append_attrs append_attr
  append_attrs_lem buf end = sym (append-nil buf)
  append_attrs_lem buf (attr k v l) =
      append_attrs_lem (append_value std ((buf ++ 32 ∷ []) ++ k ++ 61 ∷ []) v) l
      ∙ ap (λ b. b ++ spaced (fields l)) (append_value_lem ((buf ++ 32 ∷ []) ++ k ++ 61 ∷ []) v)
      ∙ glue (buf ++ 32 ∷ []) k (value_text v) (spaced (fields l))
      ∙ append_assoc buf (32 ∷ []) ((k ++ 61 ∷ value_text v) ++ spaced (fields l))

  append_level_lem : (buf : Text) (level : ℤ) → append_level std buf level ≡ buf ++ level_text level
  unfolding append_level
  append_level_lem buf (negsuc (suc (suc (suc zero)))) = refl
  append_level_lem buf (pos zero) = refl
  append_level_lem buf (pos (suc (suc (suc (suc zero))))) = refl
  append_level_lem buf (pos (suc (suc (suc (suc (suc (suc (suc (suc zero))))))))) = refl
  append_level_lem buf level = ground arith

  -- The line of a record.
  abbrev pub line : Handler → Entry → Text
  line h r =
      join
        (std.log_time r.time ∷ level_text r.level ∷ (fields h.attrs ++ r.message ∷ fields r.attrs))
      ++ 10 ∷ []

  format_lem : (h : Handler) (r : Entry) → format std [] h r ≡ line h r
  unfolding format
  format_lem h r =
      let stamped = append_level std (std.log_time r.time ++ 32 ∷ []) r.level in
      let before = append_attrs std stamped h.attrs in
      ap (λ b. b ++ 10 ∷ [])
        (append_attrs_lem ((before ++ 32 ∷ []) ++ r.message) r.attrs
          ∙ ap (λ b. ((b ++ 32 ∷ []) ++ r.message) ++ spaced (fields r.attrs))
              (append_attrs_lem stamped h.attrs
                ∙ ap (λ b. b ++ spaced (fields h.attrs))
                    (append_level_lem (std.log_time r.time ++ 32 ∷ []) r.level))
          ∙ together)
    where
      together :
          (((((std.log_time r.time ++ 32 ∷ []) ++ level_text r.level) ++ spaced (fields h.attrs))
                ++ 32 ∷ [])
              ++ r.message)
            ++ spaced (fields r.attrs)
          ≡ join (
              std.log_time r.time
              ∷ level_text r.level
              ∷ (fields h.attrs ++ r.message ∷ fields r.attrs))
      together =
          rw (spaced-append (fields h.attrs) (r.message ∷ fields r.attrs)) (simp append_assoc)

  -- Whatever the buffer from the pool held, `Handle` writes once, to the handler's writer: the
  -- time, the level by its name (DEBUG, INFO, WARN, ERROR, or what Level.String gives), the
  -- attributes of the handler, the message and those of the call, in this order, joined by single
  -- spaces, and a newline. A group is its attributes, joined by single spaces. The error of this
  -- write is returned.
  pub handle_lem :
      (h : Handler) (r : Entry) (logs : Logs)
      → ((handle std h r logs).0 ≡ std.write h.out (line h r))
        × ((handle std h r logs).1.written ≡ (h.out, line h r) ∷ logs.written)
  unfolding handle
  handle_lem h r logs =
      (ap (std.write h.out) (format_lem h r), ap (λ l. (h.out, l) ∷ logs.written) (format_lem h r))

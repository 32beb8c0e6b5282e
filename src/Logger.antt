-- ===== src/Logger.antt =====
-- services/listener/logger/handler.go: the line of a log record, the pool of buffers and the
-- writers. Values are the resolved ones, and the texts that Go's library makes of times, levels,
-- floats and other values are parameters. Calls come one after another, so the mutex has no effect.
pub mod Line
pub mod Derived
use chain_ops.Common.{
  Option, none, some, take, ℕ, zero, suc, ◌+◌, List, [], ◌∷◌, ◌++◌, Bool, true, false, ◌&&◌, ltb,
  if◌then◌else◌,
}
use chain_ops.Common.Int.{ℤ, pos, negsuc, leb_ℤ}
use chain_ops.Common.Text.{Text, codes, decimal, decimal_ℤ}
use chain_ops.World.{Error}

-- The kinds of slog.Value, and lists of slog.Attr: keys with their values.
mutual
  pub data Value : Type 0 where
    string : Text → Value
    int64 : ℤ → Value
    uint64 : ℕ → Value
    float64 : ℕ → Value
    bool : Bool → Value
    duration : ℤ → Value
    time : ℤ → Value
    group : Attrs → Value
    other : ℕ → Value

  pub data Attrs : Type 0 where
    end : Attrs
    attr : Text → Value → Attrs → Attrs

-- What the package takes from Go's library.
pub record Std : Type 0 where
  pub log_time : ℤ → Text  -- AppendFormat with "2006/01/02 15:04:05"
  pub level_string : ℤ → Text  -- Level.String
  pub float_text : ℕ → Text  -- strconv.AppendFloat
  pub duration_text : ℤ → Text  -- Duration.String
  pub rfc3339 : ℤ → Text
  pub any_text : ℕ → Text  -- fmt.Appendf with %v
  pub write : ℕ → Text → Option Error  -- Write of a writer, by its number

-- slog.Record
pub record Entry : Type 0 where
  pub time : ℤ
  pub level : ℤ
  pub message : Text
  pub attrs : Attrs

-- The io.Writer values of the process, by number.
abbrev pub Writer : Type 0
Writer = ℕ

abbrev pub stderr : Writer
stderr = 2

abbrev pub level_info : ℤ
level_info = pos 0

pub record Handler : Type 0 where
  pub out : Writer
  pub level : ℤ
  pub attrs : Attrs

abbrev pub or_default {ℓ} : {A : Type ℓ} → Option A → A → A
or_default none d = d
or_default (some a) d = a

unfoldable pub new : Option Writer → Option ℤ → Handler
new w level = record { out = or_default w stderr; level = or_default level level_info; attrs = end }

-- The handler of slog's default logger, which `init` sets.
abbrev pub default_handler : Handler
default_handler = new (some stderr) (some level_info)

unfoldable pub enabled : Handler → ℤ → Bool
enabled h level = leb_ℤ h.level level

unfoldable pub length_attrs : Attrs → ℕ
length_attrs end = 0
length_attrs (attr _ _ l) = suc (length_attrs l)

-- make([]slog.Attr, n): the zero Attr has an empty key and the value nil.
unfoldable pub make_attrs : ℕ → Attrs
make_attrs zero = end
make_attrs (suc n) = attr [] (other 0) (make_attrs n)

-- copy(dst[i:], src), where i is at most the length of dst.
unfoldable pub copy_attrs : ℕ → Attrs → Attrs → Attrs
copy_attrs _ end src = end
copy_attrs zero dst end = dst
copy_attrs zero (attr _ _ dst) (attr k v src) = attr k v (copy_attrs zero dst src)
copy_attrs (suc i) (attr k v dst) src = attr k v (copy_attrs i dst src)

unfoldable pub with_attrs : Handler → Attrs → Handler
with_attrs h l =
    let made = make_attrs (length_attrs h.attrs + length_attrs l) in
    let first = copy_attrs 0 made h.attrs in
    record h { attrs = copy_attrs (length_attrs h.attrs) first l }

unfoldable pub with_group : Handler → Text → Handler
with_group h name = h

-- `bufPool`, and what was written, the latest first.
pub record Logs : Type 0 where
  pub pool : List Text
  pub written : List (Writer × Text)

-- `bufPool.Get()`: a buffer that was put back, with what it held, or a new one.
abbrev pub get_buffer : List Text → Text × List Text
get_buffer [] = ([], [])
get_buffer (buf ∷ rest) = (buf, rest)

abbrev same_level : ℤ → ℤ → Bool
same_level a b = leb_ℤ a b && leb_ℤ b a

module _ (std : Std) where
  unfoldable pub append_level : Text → ℤ → Text
  append_level buf level =
      if same_level level (negsuc 3)
      then buf ++ codes "DEBUG"
      else if same_level level (pos 0)
      then buf ++ codes "INFO"
      else if same_level level (pos 4)
      then buf ++ codes "WARN"
      else if same_level level (pos 8)
      then buf ++ codes "ERROR"
      else buf ++ std.level_string level

  unfoldable mutual
    pub append_value : Text → Value → Text
    append_value buf (string s) = buf ++ s
    append_value buf (int64 n) = buf ++ decimal_ℤ n
    append_value buf (uint64 n) = buf ++ decimal n
    append_value buf (float64 x) = buf ++ std.float_text x
    append_value buf (bool b) = buf ++ (if b then codes "true" else codes "false")
    append_value buf (duration d) = buf ++ std.duration_text d
    append_value buf (time t) = buf ++ std.rfc3339 t
    append_value buf (group l) = append_group buf 0 l
    append_value buf (other x) = buf ++ std.any_text x

    -- The loop over a group, the first attribute of which has index i.
    pub append_group : Text → ℕ → Attrs → Text
    append_group buf i end = buf
    append_group buf i (attr k v l) =
        let spaced = if ltb 0 i then buf ++ 32 ∷ [] else buf in
        append_group (append_value (spaced ++ k ++ 61 ∷ []) v) (suc i) l

  unfoldable pub append_attr : Text → Text → Value → Text
  append_attr buf key v = append_value (buf ++ key ++ 61 ∷ []) v

  -- The loops of `Handle`, which put a space before each attribute.
  unfoldable pub append_attrs : Text → Attrs → Text
  append_attrs buf end = buf
  append_attrs buf (attr k v l) = append_attrs (append_attr (buf ++ 32 ∷ []) k v) l

  -- The bytes that `Handle` appends to a buffer.
  unfoldable pub format : Text → Handler → Entry → Text
  format buf h r =
      let stamped = append_level ((buf ++ std.log_time r.time) ++ 32 ∷ []) r.level in
      let before = append_attrs stamped h.attrs in
      append_attrs ((before ++ 32 ∷ []) ++ r.message) r.attrs ++ 10 ∷ []

  -- `Handle`: its error is that of Write.
  unfoldable pub handle : Handler → Entry → Logs → Option Error × Logs
  handle h r logs =
      let (old, pool) = get_buffer logs.pool in
      let buf = format (take 0 old) h r in
      (std.write h.out buf, record { pool = buf ∷ pool; written = (h.out, buf) ∷ logs.written })

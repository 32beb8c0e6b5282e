-- ===== src/Tests/Logging.antt =====
-- A log line with a group of attributes.
use chain_ops.Common.{none, List, ◌≡◌, true, [], ◌∷◌, ◌++◌}
use chain_ops.Common.Int.{pos, negsuc}
use chain_ops.Common.Text.{codes}
use chain_ops.Logger.{string, uint64, bool, group, end, attr, Std, Logs, Entry, Handler, handle}
use chain_ops.Logger.Line.{line, join, level_text, fields, handle_lem}
use chain_ops.Logger.Derived.{
  Derivation, by_attrs, by_group, derive, attached, EnabledFrom, handle-derive,
}

abbrev std : Std
std = record {
  log_time = λ _. codes "12:00";
  level_string = λ _. codes "TRACE";
  float_text = λ _. codes "1.5";
  duration_text = λ _. codes "3s";
  rfc3339 = λ _. codes "2026";
  any_text = λ _. codes "{}";
  write = λ _ _. none;
}

abbrev handler : Handler
handler = record { out = 2; level = pos 0; attrs = attr (codes "app") (string (codes "[evm]")) end }

abbrev entry : Entry
entry = record {
  time = pos 5;
  level = pos 0;
  message = codes "block";
  attrs = attr (codes "n") (uint64 7) (
      attr (codes "g") (group (attr (codes "a") (bool true) (attr (codes "b") (string []) end)))
        end);
}

-- The pool has a buffer with an old line.
abbrev logs : Logs
logs = record { pool = codes "old line" ∷ []; written = [] }

handle_lem_example :
    ((handle std handler entry logs).0 ≡ none)
    × ((handle std handler entry logs).1.written ≡ (2, line std handler entry) ∷ [])
handle_lem_example = handle_lem std handler entry logs

abbrev calls : List Derivation
calls =
    by_attrs entry.attrs ∷ by_group (codes "g") ∷ by_attrs (attr (codes "n") (uint64 8) end) ∷ []

handle-derive_example :
    let text =
      join (
        codes "12:00"
        ∷ level_text std (pos 0)
        ∷ ((fields std handler.attrs ++ attached std calls)
            ++ codes "block" ∷ fields std entry.attrs))
      ++ 10 ∷ [] in
    ((handle std (derive handler calls) entry logs).0 ≡ none)
    × ((handle std (derive handler calls) entry logs).1.written ≡ (2, text) ∷ [])
    × EnabledFrom std (pos 0) (derive handler calls) (negsuc 3)
handle-derive_example = handle-derive std handler calls entry logs (negsuc 3)

-- ===== src/Tests/Processes.antt =====
-- internal/cli: options, and the process of the server.
use mathlib.Core.List.{reverse_aux}
use revolution.Prelude.{
  ℕ, ◌+◌, ◌≤◌, ◌≡◌, refl, ◌⊎◌, pos, text_eq, codes, eq_text, true, not, none, some, [], ◌∷◌, ltb,
}
use revolution.Store.Exec.{ok}
use revolution.Cli.Flags.{parse}
use revolution.Cli.Flags.Written.{line, parse-line}
use revolution.Cli.Torrent.{edit_flags}
use revolution.Cli.Purge.{purge_flags}
use revolution.Cli.Process.{Machine, wait_loop, wait_for_exit}
use revolution.Cli.Process.Waiting.{wait_for_exit_lem}

-- A server that is gone after 450 ms.
abbrev pub machine : Machine
machine = record {
  now = 1000;
  pid_file = none;
  alive = λ at pid. ltb at 1450;
  late = λ at. 3;
  signals = λ pid. true;
  spawn = some (pos 42);
  children = [];
  writes = λ text. (true, some text);
  removes = true;
}

wait_for_exit_lem_example :
    ((more : ℕ)
      → wait_loop (101 + more) machine (pos 42) (1000 + 10000) 1000
        ≡ wait_for_exit machine (pos 42))
    × ((wait_for_exit machine (pos 42)).0
        ≡ not (machine.alive (wait_for_exit machine (pos 42)).1 (pos 42)))
    × (((wait_for_exit machine (pos 42)).0 ≡ true)
        ⊎ (1000 + 10000 ≤ (wait_for_exit machine (pos 42)).1))
wait_for_exit_lem_example = wait_for_exit_lem machine (pos 42)

-- The process is seen to be gone at the fifth look.
fifth_look : wait_for_exit machine (pos 42) ≡ (true, 1515)
unfolding wait_for_exit wait_loop
fifth_look = refl

parse-line_example :
    parse edit_flags [] (
      line edit_flags
        ((codes "title", codes "A = B") ∷ (codes "category", codes "films") ∷ [])
        (codes "-x" ∷ []))
    ≡ ok (record {
      given =
          reverse_aux ((codes "title", codes "A = B") ∷ (codes "category", codes "films") ∷ []) [];
      args = codes "-x" ∷ [];
    })
unfolding eq_text
parse-line_example =
    parse-line edit_flags ((codes "title", codes "A = B") ∷ (codes "category", codes "films") ∷ [])
      [] (codes "-x" ∷ []) ((refl, refl), ((refl, refl), tt))

-- A Boolean option takes no further argument, and the value of a text option may be the next one.
parse_purge :
    parse purge_flags []
      (codes "-yes" ∷ codes "-user" ∷ codes "al" ∷ codes "rest" ∷ codes "--yes" ∷ [])
    ≡ ok (record {
      given = (codes "user", codes "al") ∷ (codes "yes", codes "true") ∷ [];
      args = codes "rest" ∷ codes "--yes" ∷ [];
    })
unfolding parse eq_text
parse_purge = refl

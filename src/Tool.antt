-- ===== src/Tool.antt =====
-- tool/main.cpp: the arguments of the command line, and what is done with them.
pub mod Last
use Prim.Native.Char.{code}
use Prim.Native.String
use d_gen.Prelude.{ℕ, ℤ, Option, none, some, List, [], ◌∷◌, String, ◌==◌, if◌then◌else◌}
use d_gen.Errors.{Outcome, ok, crash, ◌>>=◌}

pub record Options : Type 0 where
  pub prog_path : Option String
  pub seed : Option ℤ
  pub tests_num : Option ℤ

-- What main does next: to print the usage, or to call generate_json with the number of tests and the
-- seed on the program at a path.
pub data Action : Type 0 where
  usage : Action
  generate : String → ℤ → Option ℤ → Action

-- The test of what is there, in main.
unfoldable pub choose : Options → Action
choose o = elim o.prog_path [
  | none ↦ usage
  | some path ↦ elim o.tests_num [ none ↦ usage | some n ↦ generate path n o.seed ]
]

module _ (atoi : String → ℤ) where
  -- The switch of parse_args on the character `c` that `argv[i] + 2` stands behind. The warning of an
  -- unknown parameter is output only.
  unfoldable pub set_option : ℕ → String → Options → Options
  set_option c value o =
      if c == b'f'
      then record o { prog_path = some value }
      else if c == b's'
      then record o { seed = some (atoi value) }
      else if c == b'n'
      then record o { tests_num = some (atoi value) }
      else o

  -- One round: of an empty argument, `argv[i][1]` is behind the end; of one character, it is the
  -- zero at the end.
  unfoldable pub parse_arg : String → Options → Outcome Options
  parse_arg String.[] o = crash
  parse_arg (String.◌∷◌ a String.[]) o = ok (set_option 0 String.[] o)
  parse_arg (String.◌∷◌ a (String.◌∷◌ c value)) o = ok (set_option (code c) value o)

  unfoldable pub parse_args : List String → Options → Outcome Options
  parse_args [] o = ok o
  parse_args (arg ∷ args) o = do p ← parse_arg arg o; parse_args args p

  -- main up to the call of generate_json
  unfoldable pub start : List String → Outcome Action
  start args = do
    o ← parse_args args (record { prog_path = none; seed = none; tests_num = none })
    ok (choose o)

-- ===== src/Gate/Start.antt =====
-- `main` and `env` of images/kubescape-gate/main.go.
use nineteenseventytwo_platf.Prelude.{
  ℕ, not, Bytes, codes, Result, ok, err, is_empty, if◌then◌else◌,
}
use nineteenseventytwo_platf.Gate.Types.{Config}
use nineteenseventytwo_platf.Gate.Types.{GateError}
use nineteenseventytwo_platf.Gate.Run.{Outside, run}

-- `get_env` is `os.Getenv`
module _ (get_env : Bytes → Bytes) where
  unfoldable pub env : Bytes → Bytes → Bytes
  env key fallback = let v = get_env key in if not (is_empty v) then v else fallback

  -- 25 hours in nanoseconds
  unfoldable pub config : Config
  unfolding env
  config = record {
    scan_path = env (codes "GATE_SCAN") (codes "/scan/results.json");
    accepted_path = env (codes "GATE_ACCEPTED") (codes "/accepted/accepted.txt");
    alertmanager = get_env (codes "GATE_ALERTMANAGER");
    expire = 90000000000000;
  }

  -- the status of the process
  abbrev pub exit_status : Result GateError (Unit {0}) → ℕ
  exit_status (err e) = 1
  exit_status (ok done) = 0

  unfoldable pub main : Outside → ℕ → ℕ
  unfolding config run
  main o now = exit_status ((run o config now).result)

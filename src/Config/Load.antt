-- ===== src/Config/Load.antt =====
-- internal/config/config.go: reading besu.json.
use besu_interbank_demo.Base.{none, some, ◌++◌, utf8}
use besu_interbank_demo.Base.Outcome.{M, ok, err, pure, raise, call, try}
use besu_interbank_demo.Platform.Geth.{Geth}
use besu_interbank_demo.Platform.Machine.{Machine}
use besu_interbank_demo.Config.{env_or}
use besu_interbank_demo.Config.Deployment.{Deployment, decode_deployment}

module _ {G : Geth} (m : Machine G) where
  unfoldable pub load_deployment : M m.World Deployment
  load_deployment =
      let path =
        env_or m (utf8 "DEPLOYMENT_JSON")
          (m.repo_root ++ utf8 "/contracts/deployments/besu.json") in
      try (call (m.read_file path)) λ r. elim r [
        | err e ↦ raise (
            utf8 "read "
            ++ path
            ++ utf8 ": "
            ++ e
            ++ utf8 " (deploy the contracts first — see README)")
        | ok raw ↦ elim (decode_deployment m raw) [
          | none ↦ raise (utf8 "parse " ++ path ++ utf8 ": " ++ m.json_error raw)
          | some d ↦ pure d
        ]
      ]

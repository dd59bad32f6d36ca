-- ===== src/Scripts/Verifiers.antt =====
-- contracts/scripts/redeploy-verifiers.ts and swap-to-mock-verifier.ts. The build's contract MockVerifier, which is not in the
-- repository, is taken to be there.
pub mod Outcome
use zstrategy.Base.{ℕ, Bool, not, ◌&&◌, Option, none, some, if◌then◌else◌}
use zstrategy.Base.Text.{Text, codes}
use zstrategy.Scripts.Run.{Script, give, fail, require, ◌>>=◌}
use zstrategy.Scripts.Chain.{Setting, World, Action, Deployment, resolved, deploy, set_verifier}
use zstrategy.Scripts.Settings.{is_one}
use zstrategy.Scripts.Deploy.{is_deployer, write_file}
use zstrategy.Scripts.Redeploy.{previous_deployment}

-- A field of the file that is used as a text: what is undefined throws.
abbrev pub defined_or_fail : Option Text → Script World Text
defined_or_fail none = fail (codes "Cannot read properties of undefined")
defined_or_fail (some t) = give t

module _ (s : Setting) where
  -- the file, for the guardian that it names
  unfoldable pub guarded_deployment : Script World Deployment
  unfolding previous_deployment
  guarded_deployment = do
    previous ← previous_deployment s
    guardian ← defined_or_fail previous.guardian
    guarded ← require (is_deployer s guardian) (codes "Deployer is not the registry guardian")
    give previous

  unfoldable pub deploy_verifier : Script World Text
  deploy_verifier = do library ← deploy s; deploy s

  -- `registry.setVerifier(kind, verifier)` on the registry of the file
  unfoldable pub point_verifier : ℕ → ℕ → Text → Action
  unfolding set_verifier
  point_verifier registry kind verifier = resolved s verifier >>= set_verifier s registry kind

  -- One kind of verifier: left as it is, or deployed and registered.
  unfoldable pub renew_verifier : Bool → ℕ → ℕ → Option Text → Script World (Option Text)
  unfolding deploy_verifier point_verifier
  renew_verifier skip registry kind previous = if skip then give previous else (do
    verifier ← deploy_verifier
    pointed ← point_verifier registry kind verifier
    give (some verifier))

  abbrev pub registry_of : Deployment → Script World ℕ
  registry_of previous = defined_or_fail previous.commitment_registry >>= resolved s

  abbrev pub skip_order_fill : Bool
  skip_order_fill = is_one (s.env (codes "SKIP_ORDER_FILL"))

  abbrev pub skip_dca : Bool
  skip_dca = is_one (s.env (codes "SKIP_DCA"))

  unfoldable pub redeploy_verifiers : Action
  unfolding guarded_deployment renew_verifier
  redeploy_verifiers = do
    previous ← guarded_deployment
    registry ← registry_of previous
    something ←
        require (not (skip_order_fill && skip_dca))
          (codes "Both SKIP_ORDER_FILL and SKIP_DCA are set")
    order_fill ← renew_verifier skip_order_fill registry 0 previous.order_fill_verifier
    dca ← renew_verifier skip_dca registry 1 previous.dca_verifier
    write_file s (record previous {
      order_fill_verifier = order_fill;
      dca_verifier = dca;
      deployed_at = some s.now;
    })

  unfoldable pub mock_kind : Bool → ℕ → ℕ → Text → Action
  unfolding point_verifier
  mock_kind skip registry kind mock = if skip then give tt else point_verifier registry kind mock

  unfoldable pub swap_to_mock_verifier : Action
  unfolding guarded_deployment mock_kind
  swap_to_mock_verifier = do
    previous ← guarded_deployment
    mock ← deploy s
    registry ← registry_of previous
    something ←
        require (not (skip_order_fill && skip_dca))
          (codes "Both SKIP_ORDER_FILL and SKIP_DCA are set")
    order_fill ← mock_kind skip_order_fill registry 0 mock
    dca ← mock_kind skip_dca registry 1 mock
    write_file s (record previous { mock_verifier = some mock })

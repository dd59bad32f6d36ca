-- ===== src/Toasts.antt =====
-- The toasts of a transaction: frontend/src/hooks/useTxToast.ts, with the links of
-- frontend/src/lib/explorerUrl.ts. When React runs which of the four effects is left open: a run is
-- any sequence of them, each with the arguments of its render. A call of sonner is noted with the id
-- of the toast it shows; for a call without an id, sonner's choice is a parameter.
use zstrategy.Base.{
  Bool, true, false, ℕ, zero, suc, ◌-◌, List, [], ◌∷◌, ◌++◌, Option, none, some, ◌==◌,
  if◌then◌else◌, not, ◌||◌, length, take, drop,
}
use zstrategy.Base.Text.{Text, codes, text_eq}
pub mod Effects
pub mod Lifecycle

-- An Error that wagmi hands over; viem's have a shortMessage.
pub record TxError : Type 0 where
  pub short_message : Option Text
  pub message : Option Text

-- What the effects of one render see: the hook's arguments, and the chain's id.
pub record ToastArgs : Type 0 where
  pub hash : Option Text
  pub is_confirming : Bool
  pub is_success : Bool
  pub error : Option TxError
  pub label : Text
  pub success_toast_enabled : Bool
  pub chain_id : ℕ

-- What a toast shows. Durations are in milliseconds.
pub data Content : Type 0 where
  loading : (title description : Text) → Content
  success : (title description : Text) (duration : ℕ) (action : Option (Text × Text)) → Content
  failure : (title description : Text) (duration : ℕ) → Content

-- A call of sonner: `toast.loading` and the like, for the toast with that id, or `toast.dismiss`.
pub data ToastCall : Type 0 where
  shown : ℕ → Content → ToastCall
  dismissed : ℕ → ToastCall

-- The two refs of the hook, and the calls of sonner, the last one first.
pub record Toasts : Type 0 where
  pub toast_id : Option ℕ
  pub handled_hash : Option Text
  pub calls : List ToastCall

-- What wagmi/chains and sonner give: the ids of three chains, and the id of a new toast after the
-- calls so far.
pub record ToastLibrary : Type 0 where
  pub arbitrum_sepolia : ℕ
  pub base_sepolia : ℕ
  pub hardhat : ℕ
  pub new_id : List ToastCall → ℕ

unfoldable pub is_handled : Text → Option Text → Bool
is_handled h none = false
is_handled h (some h') = text_eq h h'

abbrev pub waiting : Text
waiting = codes "Waiting for on-chain confirmation…"

-- The ref where it is truthy: neither null nor 0.
unfoldable pub truthy_id : Option ℕ → Option ℕ
truthy_id none = none
truthy_id (some zero) = none
truthy_id (some (suc i)) = some (suc i)

-- `hash.slice(0, 10)` and `hash.slice(-6)`, with an ellipsis between.
pub short_hash : Text → Text
short_hash h = codes "Tx " ++ take 10 h ++ codes "…" ++ drop (length h - 6) h

unfoldable pub dismiss_current : Option ℕ → List ToastCall → List ToastCall
unfolding truthy_id
dismiss_current id calls = elim (truthy_id id) [ none ↦ calls | some i ↦ dismissed i ∷ calls ]

-- `error.shortMessage ?? error.message ?? "Transaction failed"`
pub error_text : TxError → Text
error_text e = elim e.short_message [
  | some short ↦ short
  | none ↦ elim e.message [ some message ↦ message | none ↦ codes "Transaction failed" ]
]

unfoldable pub failed_content : ToastArgs → TxError → Content
failed_content p e = failure (p.label ++ codes " failed") (take 200 (error_text e)) 10000

module _ (lib : ToastLibrary) where
  unfoldable pub tx_prefix : ℕ → Option Text
  tx_prefix chain =
      if chain == lib.hardhat
      then none
      else if chain == lib.base_sepolia
      then some (codes "https://sepolia.basescan.org/tx/")
      else if chain == lib.arbitrum_sepolia
      then some (codes "https://sepolia.arbiscan.io/tx/")
      else none

  unfoldable pub get_tx_url : ℕ → Text → Option Text
  unfolding tx_prefix
  get_tx_url chain hash = elim (tx_prefix chain) [
    | none ↦ none
    | some prefix ↦ some (prefix ++ hash)
  ]

  unfoldable pub explorer_name : ℕ → Text
  explorer_name chain =
      if chain == lib.arbitrum_sepolia
      then codes "Arbiscan"
      else if chain == lib.base_sepolia
      then codes "Basescan"
      else codes "explorer"

  -- A call that hands `id: toastIdRef.current ?? undefined` to sonner.
  unfoldable pub show_in : Option ℕ → Content → List ToastCall → List ToastCall
  show_in none c calls = shown (lib.new_id calls) c ∷ calls
  show_in (some i) c calls = shown i c ∷ calls

  -- A hash is there: the loading toast.
  unfoldable pub submitted_toast : Text → Text → Toasts → Toasts
  unfolding is_handled
  submitted_toast h label t = if is_handled h t.handled_hash then t else record {
    toast_id = some (lib.new_id t.calls);
    handled_hash = some h;
    calls = shown (lib.new_id t.calls) (loading (label ++ codes ": submitted") waiting) ∷ t.calls;
  }

  unfoldable pub on_submitted : ToastArgs → Toasts → Toasts
  on_submitted p t = elim p.hash [ none ↦ t | some h ↦ submitted_toast h p.label t ]

  unfoldable pub on_confirming : ToastArgs → Toasts → Toasts
  unfolding truthy_id
  on_confirming p t = if not p.is_confirming then t else elim (truthy_id t.toast_id) [
    | none ↦ t
    | some i ↦ record t {
      calls = shown i (loading (p.label ++ codes ": confirming") waiting) ∷ t.calls;
    }
  ]

  unfoldable pub explorer_link : ℕ → Text → Option (Text × Text)
  unfolding get_tx_url explorer_name
  explorer_link chain h = elim (get_tx_url chain h) [
    | none ↦ none
    | some url ↦ some (codes "View on " ++ explorer_name chain ++ codes " ↗", url)
  ]

  unfoldable pub confirmed_content : ToastArgs → Text → Content
  confirmed_content p h =
      success (p.label ++ codes " confirmed") (short_hash h) 8000 (explorer_link p.chain_id h)

  unfoldable pub on_confirmed : ToastArgs → Toasts → Toasts
  unfolding dismiss_current show_in
  on_confirmed p t = elim p.hash [
    | none ↦ t
    | some h ↦ if not p.is_success then t else record t {
      toast_id = none;
      calls =
          if not p.success_toast_enabled
          then dismiss_current t.toast_id t.calls
          else show_in t.toast_id (confirmed_content p h) t.calls;
    }
  ]

  unfoldable pub on_failed : ToastArgs → Toasts → Toasts
  unfolding show_in
  on_failed p t = elim p.error [
    | none ↦ t
    | some e ↦ record t { toast_id = none; calls = show_in t.toast_id (failed_content p e) t.calls }
  ]

-- The four effects, in the order of the hook.
pub data Effect : Type 0 where
  submit confirming confirm fail : Effect

module _ (lib : ToastLibrary) where
  unfoldable pub run_effect : Effect → ToastArgs → Toasts → Toasts
  unfolding on_submitted on_confirming on_confirmed on_failed
  run_effect submit p t = on_submitted lib p t
  run_effect confirming p t = on_confirming lib p t
  run_effect confirm p t = on_confirmed lib p t
  run_effect fail p t = on_failed lib p t

  unfoldable pub run_effects : List (Effect × ToastArgs) → Toasts → Toasts
  unfolding run_effect
  run_effects [] t = t
  run_effects ((e, p) ∷ es) t = run_effects es (run_effect e p t)

-- Whether the toast with an id is a loading one: as its last call says.
unfoldable pub is_loading : List ToastCall → ℕ → Bool
is_loading [] i = false
is_loading (shown j (loading title d) ∷ calls) i =
    let rest = is_loading calls i in if j == i then true else rest
is_loading (shown j (success title d n a) ∷ calls) i =
    let rest = is_loading calls i in if j == i then false else rest
is_loading (shown j (failure title d n) ∷ calls) i =
    let rest = is_loading calls i in if j == i then false else rest
is_loading (dismissed j ∷ calls) i = let rest = is_loading calls i in if j == i then false else rest

-- Whether an effect closes the matter: a success of a hash, or an error.
unfoldable pub settles : Effect → ToastArgs → Bool
settles submit p = false
settles confirming p = false
settles confirm p = elim p.hash [ none ↦ false | some h ↦ p.is_success ]
settles fail p = elim p.error [ none ↦ false | some e ↦ true ]

unfoldable pub any_settles : List (Effect × ToastArgs) → Bool
unfolding settles
any_settles [] = false
any_settles ((e, p) ∷ es) = settles e p || any_settles es

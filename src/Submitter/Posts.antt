-- ===== src/Submitter/Posts.antt =====
-- What is to be posted to the backend when a call of `submitExecution` ends
-- (keeper/src/execution/submitter.ts).
use zstrategy.Base.{
  ℕ, zero, suc, Bool, true, false, List, [], ◌∷◌, ◌++◌, replicate, ◌≡◌, ◌≢◌, refl, sym, ap, ◌∙◌,
  inl, inr, arith, Bool-cases, ◌==◌, if◌then◌else◌,
}
use mathlib.Core.List.{reverse, reverse-append, reverse-reverse, reverse-cons}
use zstrategy.Base.Text.{Text, codes}
use zstrategy.Base.Result.{Result, ok, throw}
use zstrategy.Submitter.{
  SubmitConfig, Event, posted, drop_slashes, done_url, notify_backend_done, is_user_fixable_revert,
  is_definitive_revert,
}

-- The last character is a slash.
abbrev pub ends_in_slash : Text → Bool
ends_in_slash [] = false
ends_in_slash (c ∷ []) = c == b'/'
ends_in_slash (c ∷ d ∷ s) = ends_in_slash (d ∷ s)

-- What is posted with a reason: nothing without a backend URL, and else the reason, once, to the URL without the slashes
-- at its end, with the path of the commitment.
pub data PostsOf (url hash reason : Text) : List Event → Type 0 where
  no_backend : url ≡ [] → PostsOf url hash reason []
  posted_once :
      (base : Text) (n : ℕ)
      → url ≢ []
      → url ≡ base ++ replicate n b'/'
      → ends_in_slash base ≡ false
      → PostsOf url hash reason
          (posted (base ++ (codes "/api/v1/strategies/" ++ (hash ++ codes "/done"))) reason ∷ [])

-- The posts that the end of a call asks for.
pub data DuePosts (c : SubmitConfig) (hash last : Text) : Result Text → List Event → Type 0 where
  for_hash : (tx : Text) → DuePosts c hash last (ok tx) []
  for_fixable : (m : Text) → is_user_fixable_revert last ≡ true → DuePosts c hash last (throw m) []
  for_definitive :
      (m : Text) (events : List Event)
      → is_user_fixable_revert last ≡ false
      → is_definitive_revert last ≡ true
      → PostsOf c.backend_url hash last events
      → DuePosts c hash last (throw m) events
  for_other :
      (m : Text) (events : List Event)
      → is_user_fixable_revert last ≡ false
      → is_definitive_revert last ≡ false
      → PostsOf c.backend_url hash (codes "max retries exceeded: " ++ last) events
      → DuePosts c hash last (throw m) events

-- The posts of the code.
abbrev pub due_posts : SubmitConfig → Text → Result Text → Text → List Event
due_posts c hash (ok tx) last = []
due_posts c hash (throw m) last =
    if is_user_fixable_revert last
    then []
    else if is_definitive_revert last
    then notify_backend_done c hash last
    else notify_backend_done c hash (codes "max retries exceeded: " ++ last)

ends_in_slash-append : (s : Text) (c : ℕ) → ends_in_slash (s ++ c ∷ []) ≡ (c == b'/')
ends_in_slash-append [] c = refl
ends_in_slash-append (x ∷ []) c = refl
ends_in_slash-append (x ∷ y ∷ s) c = ends_in_slash-append (y ∷ s) c

replicate-append : (n c : ℕ) → replicate n c ++ c ∷ [] ≡ c ∷ replicate n c
replicate-append zero c = refl
replicate-append (suc n) c = ap (λ s. c ∷ s) (replicate-append n c)

reverse-replicate : (n c : ℕ) → reverse (replicate n c) ≡ replicate n c
reverse-replicate zero c = refl
reverse-replicate (suc n) c =
    reverse-cons c (replicate n c)
    ∙ ap (λ s. s ++ c ∷ []) (reverse-replicate n c)
    ∙ replicate-append n c

-- What `drop_slashes` takes off, and that none is left, of the text read backwards.
drop_slashes_lem :
    (s : Text)
    → (n : ℕ) × (s ≡ replicate n b'/' ++ drop_slashes s)
      × (ends_in_slash (reverse (drop_slashes s)) ≡ false)
unfolding drop_slashes
drop_slashes_lem [] = (0, refl, refl)
drop_slashes_lem (c ∷ s) = elim (Bool-cases (c == b'/')) [
  | inl slash ↦
      let (n, e, free) = drop_slashes_lem s in
      let is : c ≡ b'/' = ground (arith, slash) in
      rw slash (suc n, ap (λ z. z ∷ s) is ∙ ap (λ z. b'/' ∷ z) e, free)
  | inr other ↦
      rw other
        (0, refl, ap ends_in_slash (reverse-cons c s) ∙ ends_in_slash-append (reverse s) c ∙ other)
]

-- The URL without the slashes at its end.
trimmed_lem :
    (url : Text)
    → (n : ℕ) × (url ≡ reverse (drop_slashes (reverse url)) ++ replicate n b'/')
      × (ends_in_slash (reverse (drop_slashes (reverse url))) ≡ false)
trimmed_lem url =
    let (n, e, free) = drop_slashes_lem (reverse url) in
    (
      n,
      sym (reverse-reverse url)
          ∙ ap reverse e
          ∙ reverse-append (replicate n b'/') (drop_slashes (reverse url))
          ∙ ap (λ z. reverse (drop_slashes (reverse url)) ++ z) (reverse-replicate n b'/'),
      free,
    )

cons_ne_nil : {c : ℕ} {s : Text} → ◌≡◌ {A = Text} (c ∷ s) [] → ⊥
cons_ne_nil h = cc

notify_backend_done-PostsOf_url :
    (c : SubmitConfig) (hash reason url : Text)
    → c.backend_url ≡ url
    → PostsOf url hash reason (notify_backend_done c hash reason)
unfolding notify_backend_done done_url
notify_backend_done-PostsOf_url c hash reason [] e = rw e (no_backend refl)
notify_backend_done-PostsOf_url c hash reason (x ∷ s) e =
    let (n, parts, free) = trimmed_lem (x ∷ s) in
    rw e (posted_once (reverse (drop_slashes (reverse (x ∷ s)))) n cons_ne_nil parts free)

notify_backend_done-PostsOf :
    (c : SubmitConfig) (hash reason : Text)
    → PostsOf c.backend_url hash reason (notify_backend_done c hash reason)
notify_backend_done-PostsOf c hash reason =
    notify_backend_done-PostsOf_url c hash reason c.backend_url refl

pub due_posts_lem :
    (c : SubmitConfig) (hash last : Text) (r : Result Text)
    → DuePosts c hash last r (due_posts c hash r last)
due_posts_lem c hash last (ok tx) = for_hash tx
due_posts_lem c hash last (throw m) = elim (Bool-cases (is_user_fixable_revert last)) [
  | inl fixable ↦ rw fixable (for_fixable m fixable)
  | inr other ↦ elim (Bool-cases (is_definitive_revert last)) [
    | inl final ↦
        rw (other, final)
          (for_definitive m (notify_backend_done c hash last) other final
            (notify_backend_done-PostsOf c hash last))
    | inr again ↦
        let reason = codes "max retries exceeded: " ++ last in
        rw (other, again)
          (for_other m (notify_backend_done c hash reason) other again
            (notify_backend_done-PostsOf c hash reason))
  ]
]

-- ===== src/Reaper/MapOrder.antt =====
-- internal/reaper/reaper.go, `ReapRemoteBundleCaches`: the order in which Go passes over its two maps.
use vci.Base.{
  ℕ, ◌+◌, ◌≡◌, refl, sym, ap, ◌∙◌, Bool, true, false, List, [], ◌∷◌, arith, if◌then◌else◌, Result,
  ok, err, Text, is_empty,
}
use vci.Config.Defaults.{effective_bundle_cache}
use vci.Config.Types.{BundleCachePolicy, Config, Machine, Project}
use vci.Host.Cache.{Reaped}
use vci.Host.Paths.{HostError}
use vci.Reaper.Remote.{
  Counts, add_reaped, attached_to, reap_machines, reap_projects, reap_remote_bundle_caches,
}
use native.Mathlib.Nat.{ℕ_set}
use mathlib.Core.HLevel.{Σ_set}
use mathlib.Core.List.{Perm, foldr}
use mathlib.Core.List.Perm

Counts_set : IsSet Counts
Counts_set = Σ_set ℕ_set (λ _. ℕ_set)

abbrev loop : {A : Type 0} → (A → Counts → Counts) → Counts → List A → Counts
loop f x [] = x
loop f x (a ∷ xs) = loop f (f a x) xs

abbrev Commute : {A B : Type 0} → (A → Counts → Counts) → (B → Counts → Counts) → Type 0
Commute {A} {B} f g = (a : A) (b : B) (x : Counts) → f a (g b x) ≡ g b (f a x)

loop-step :
    {A B : Type 0} (f : A → Counts → Counts) (g : B → Counts → Counts)
    → Commute f g
    → (b : B) (x : Counts) (xs : List A) → loop f (g b x) xs ≡ g b (loop f x xs)
loop-step f g h b x [] = refl
loop-step f g h b x (a ∷ xs) = ap (λ y. loop f y xs) (h a b x) ∙ loop-step f g h b (f a x) xs

loop-loop :
    {A B : Type 0} (f : A → Counts → Counts) (g : B → Counts → Counts)
    → Commute f g
    → (x : Counts) (xs : List A) (ys : List B) → loop f (loop g x ys) xs ≡ loop g (loop f x xs) ys
loop-loop f g h x xs [] = refl
loop-loop f g h x xs (b ∷ ys) =
    loop-loop f g h (g b x) xs ys ∙ ap (λ y. loop g y ys) (loop-step f g h b x xs)

module _ {A : Type 0} (f : A → Counts → Counts) (f_comm : Commute f f) where
  loop-foldr : (x : Counts) (xs : List A) → loop f x xs ≡ foldr f x xs
  loop-foldr x [] = refl
  loop-foldr x (a ∷ xs) = loop-step f f f_comm a x xs ∙ ap (f a) (loop-foldr x xs)

  loop-Perm : (x : Counts) (xs ys : List A) → Perm xs ys → loop f x xs ≡ loop f x ys
  loop-Perm x xs ys p =
      loop-foldr x xs ∙ Perm.foldr-eq Counts_set f f_comm p x ∙ sym (loop-foldr x ys)

swap_terms : (s a b : ℕ) → s + a + b ≡ s + b + a
swap_terms s a b = omega arith

add_reaped_comm :
    (x : Counts) (a b : Result HostError Reaped)
    → add_reaped (add_reaped x a) b ≡ add_reaped (add_reaped x b) a
add_reaped_comm (s, e) (ok a) (ok b) =
    λ i. (swap_terms s a.stale b.stale i, swap_terms e a.evicted b.evicted i)
add_reaped_comm (s, e) (ok a) (err b) = refl
add_reaped_comm (s, e) (err a) b = refl

add_if_comm :
    (p q : Bool) (a b : Result HostError Reaped) (x : Counts)
    → (if p
        then add_reaped (if q then add_reaped x b else x) a
        else if q
        then add_reaped x b
        else x)
      ≡ (if q
          then add_reaped (if p then add_reaped x a else x) b
          else if p
          then add_reaped x a
          else x)
add_if_comm true true a b x = add_reaped_comm x b a
add_if_comm true false a b x = refl
add_if_comm false q a b x = refl

module _ (reap : Text → Text → BundleCachePolicy → Result HostError Reaped) where
  abbrev on_project : Text → Text → BundleCachePolicy → Text × Project → Counts → Counts
  on_project machine host policy (name, p) x =
      if attached_to p machine then add_reaped x (reap host name policy) else x

  abbrev on_machine : List (Text × Project) → Text × Machine → Counts → Counts
  on_machine projects (name, m) x =
      if is_empty m.host
      then x
      else loop (on_project name m.host (effective_bundle_cache m.bundle_cache)) x projects

  on_project-Commute :
      (m n host elsewhere : Text) (p q : BundleCachePolicy)
      → Commute (on_project m host p) (on_project n elsewhere q)
  on_project-Commute m n host elsewhere p q (a, pa) (b, pb) x =
      add_if_comm (attached_to pa m) (attached_to pb n) (reap host a p) (reap elsewhere b q) x

  on_machine-Commute :
      (projects : List (Text × Project)) → Commute (on_machine projects) (on_machine projects)
  on_machine-Commute projects (a, m) (b, n) x = go (is_empty m.host) (is_empty n.host)
    where
      f : Counts → Counts
      f y = loop (on_project a m.host (effective_bundle_cache m.bundle_cache)) y projects

      g : Counts → Counts
      g y = loop (on_project b n.host (effective_bundle_cache n.bundle_cache)) y projects

      go :
          (p q : Bool)
          → (if p then (if q then x else g x) else f (if q then x else g x))
            ≡ (if q then (if p then x else f x) else g (if p then x else f x))
      go true q = refl
      go false true = refl
      go false false = loop-loop _ _ (on_project-Commute a b m.host n.host _ _) x projects projects

  reap_projects-loop :
      (name host : Text) (policy : BundleCachePolicy) (x : Counts) (ps : List (Text × Project))
      → reap_projects reap name host policy x ps ≡ loop (on_project name host policy) x ps
  unfolding reap_projects
  reap_projects-loop name host policy x [] = refl
  reap_projects-loop name host policy x ((n, p) ∷ ps) =
      reap_projects-loop name host policy (on_project name host policy (n, p) x) ps

  reap_machines-loop :
      (projects : List (Text × Project)) (x : Counts) (ms : List (Text × Machine))
      → reap_machines reap projects x ms ≡ loop (on_machine projects) x ms
  unfolding reap_machines
  reap_machines-loop projects x [] = refl
  reap_machines-loop projects x ((n, m) ∷ ms) =
      ap (λ y. reap_machines reap projects (if is_empty m.host then x else y) ms)
        (reap_projects-loop n m.host (effective_bundle_cache m.bundle_cache) x projects)
      ∙ reap_machines-loop projects (on_machine projects (n, m) x) ms

  loop_projects-Perm :
      (ps qs : List (Text × Project)) (x : Counts) (ms : List (Text × Machine))
      → Perm ps qs
      → loop (on_machine ps) x ms ≡ loop (on_machine qs) x ms
  loop_projects-Perm ps qs x [] p = refl
  loop_projects-Perm ps qs x ((n, m) ∷ ms) p =
      ap (λ y. loop (on_machine ps) (if is_empty m.host then x else y) ms)
        (loop-Perm _ (on_project-Commute n n m.host m.host _ _) x ps qs p)
      ∙ loop_projects-Perm ps qs (on_machine qs (n, m) x) ms p

  -- The counts that the sweep over the remote bundle caches reports do not depend on the order in which
  -- Go passes over the machines and over the projects, which it leaves open, as long as each worker
  -- answers the same for a host, a project and a policy.
  pub reap_remote_bundle_caches-Perm :
      (cfg cfg' : Config) (counts : Counts)
      → Perm cfg.machines cfg'.machines
      → Perm cfg.projects cfg'.projects
      → reap_remote_bundle_caches reap cfg counts ≡ reap_remote_bundle_caches reap cfg' counts
  unfolding reap_remote_bundle_caches
  reap_remote_bundle_caches-Perm cfg cfg' counts pm pp =
      reap_machines-loop cfg.projects counts cfg.machines
      ∙ loop-Perm _ (on_machine-Commute cfg.projects) counts cfg.machines cfg'.machines pm
      ∙ loop_projects-Perm cfg.projects cfg'.projects counts cfg'.machines pp
      ∙ sym (reap_machines-loop cfg'.projects counts cfg'.machines)

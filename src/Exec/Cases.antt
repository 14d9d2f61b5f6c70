-- ===== src/Exec/Cases.antt =====
-- To prove a fact about what a call returns and leaves behind, one case for each way it can go.
use accelerator_pack_auth_se.Prelude.{
  Error, Result, ok, err, Option, none, some, Bool, true, false, ◌≡◌, refl, sym, subst,
  if◌then◌else◌,
}
use accelerator_pack_auth_se.Exec.{Exec, continue, guard, found_or, lift, IsReader, ◌>>=◌}

module _ {ℓ κ} {S A B : Type ℓ} (P : Result B × S → Type κ) where
  continue-cases :
      (r : Result A) (f : A → Exec S B) (s : S)
      → ((e : Error) → r ≡ err e → P (err e, s))
      → ((a : A) → r ≡ ok a → P (f a s))
      → P (continue r f s)
  continue-cases (ok a) f s failed returned = returned a refl
  continue-cases (err e) f s failed returned = failed e refl

  -- A sequence fails with its first part or goes on where that returned.
  pub bind-cases :
      (m : Exec S A) (f : A → Exec S B) (s : S)
      → ((e : Error) → (m s).0 ≡ err e → P (err e, (m s).1))
      → ((a : A) → (m s).0 ≡ ok a → P (f a (m s).1))
      → P ((m >>= f) s)
  bind-cases m f s failed returned = continue-cases (m s).0 f (m s).1 failed returned

  -- The same for a first part that only reads.
  pub read-cases :
      (m : Exec S A) (f : A → Exec S B) (s : S)
      → IsReader m
      → ((e : Error) → P (err e, s))
      → ((a : A) → (m s).0 ≡ ok a → P (f a s))
      → P ((m >>= f) s)
  read-cases m f s reads failed returned =
      subst (λ s'. P (continue (m s).0 f s')) (sym (reads s))
        (continue-cases (m s).0 f s (λ e h. failed e) returned)

  pub lift-cases :
      (r : Result A) (f : A → Exec S B) (s : S)
      → ((e : Error) → P (err e, s))
      → ((a : A) → r ≡ ok a → P (f a s))
      → P ((lift r >>= f) s)
  lift-cases r f s failed returned = continue-cases r f s (λ e h. failed e) returned

module _ {ℓ κ} {S B : Type ℓ} (P : Result B × S → Type κ) where
  pub guard-cases :
      (b : Bool) (e : Error) (f : Unit → Exec S B) (s : S)
      → P (err e, s)
      → (b ≡ true → P (f tt s))
      → P ((guard b e >>= f) s)
  guard-cases true e f s refused passed = passed refl
  guard-cases false e f s refused passed = refused

  pub found-cases :
      {A : Type ℓ} (missing : Exec S B) (o : Option A) (rest : A → Exec S B) (s : S)
      → P (missing s)
      → ((a : A) → o ≡ some a → P (rest a s))
      → P (found_or missing o rest s)
  found-cases missing none rest s absent present = absent
  found-cases missing (some a) rest s absent present = present a refl

  pub if-cases :
      (b : Bool) (m n : Exec S B) (s : S)
      → (b ≡ true → P (m s))
      → (b ≡ false → P (n s))
      → P ((if b then m else n) s)
  if-cases true m n s first second = first refl
  if-cases false m n s first second = second refl

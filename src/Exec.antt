-- ===== src/Exec.antt =====
-- Calls that read and write a state and may raise. What was committed before a raise stays, so the
-- state comes back beside an error too.
pub mod Cases
use accelerator_pack_auth_se.Prelude.{
  Error, Result, ok, err, Option, none, some, Bool, true, false, if◌then◌else◌, ◌≡◌, refl, ap, sym,
  ◌∙◌, subst,
}

abbrev pub Exec {ℓ} : Type ℓ → Type ℓ → Type ℓ
Exec S A = S → Result A × S

module _ {ℓ} {S A : Type ℓ} where
  abbrev pub lift : Result A → Exec S A
  lift result state = (result, state)

  abbrev pub pure : A → Exec S A
  pure value state = (ok value, state)

  abbrev pub gets : (S → A) → Exec S A
  gets read state = (ok (read state), state)

  abbrev pub raise : Error → Exec S A
  raise error state = (err error, state)

abbrev pub modify {ℓ} : {S : Type ℓ} → (S → S) → Exec S Unit
modify f s = (ok tt, f s)

abbrev pub guard {ℓ} : {S : Type ℓ} → Bool → Error → Exec S Unit
guard b e s = (if b then ok tt else err e, s)

module _ {ℓ} {S A B : Type ℓ} where
  abbrev pub continue : Result A → (A → Exec S B) → Exec S B
  continue (ok a) f s = f a s
  continue (err e) f s = (err e, s)

  infixl 10 ◌>>=◌ ◌>>◌
  abbrev pub ◌>>=◌ : Exec S A → (A → Exec S B) → Exec S B
  ◌>>=◌ m f s = let (r, s') = m s in continue r f s'

  abbrev pub ◌>>◌ : Exec S A → Exec S B → Exec S B
  m >> n = m >>= λ _. n

-- `if found is None: …`, and the rest of the call on what was found.
abbrev pub found_or {ℓ} : {S A B : Type ℓ} → Exec S B → Option A → (A → Exec S B) → Exec S B
found_or missing none rest = missing
found_or missing (some a) rest = rest a

-- A call on one part of the state.
abbrev pub zoom {ℓ} : {S T A : Type ℓ} → (S → T) → (T → S → S) → Exec T A → Exec S A
zoom get put m s = let (r, t) = m (get s) in (r, put t s)

-- A sequence returns where both its parts do.
pub continue-ok {ℓ} :
    {S A B : Type ℓ} (r : Result A) (f : A → Exec S B) (s : S) {b : B}
    → (continue r f s).0 ≡ ok b
    → (a : A) × (r ≡ ok a) × ((f a s).0 ≡ ok b)
continue-ok (ok a) f s h = (a, refl, h)
continue-ok (err e) f s h = cc

-- A sequence leaves the state as it is where its second part does.
pub continue-state {ℓ} :
    {S A B : Type ℓ} (r : Result A) (f : A → Exec S B) (s : S)
    → ((a : A) → (f a s).1 ≡ s)
    → (continue r f s).1 ≡ s
continue-state (ok a) f s h = h a
continue-state (err e) f s h = refl

-- A call that only reads: whatever it returns or raises, the state is as it was.
abbrev pub IsReader {ℓ} : {S A : Type ℓ} → Exec S A → Type ℓ
IsReader m = (s : _) → (m s).1 ≡ s

module _ {ℓ} {S : Type ℓ} where
  pub bind-IsReader :
      {A B : Type ℓ} (m : Exec S A) (f : A → Exec S B)
      → IsReader m
      → ((a : A) → IsReader (f a))
      → IsReader (m >>= f)
  bind-IsReader m f hm hf s =
      subst (λ s'. (continue (m s).0 f s').1 ≡ s) (sym (hm s))
        (continue-state (m s).0 f s λ a. hf a s)

  pub if-IsReader :
      {A : Type ℓ} (b : Bool) (m n : Exec S A)
      → IsReader m
      → IsReader n
      → IsReader (if b then m else n)
  if-IsReader true m n hm hn = hm
  if-IsReader false m n hm hn = hn

  -- A sequence whose first part only reads returns where both its parts do.
  pub bind-ok :
      {A B : Type ℓ} (m : Exec S A) (f : A → Exec S B) (s : S) (b : B)
      → IsReader m
      → ((m >>= f) s).0 ≡ ok b
      → (a : A) × ((m s).0 ≡ ok a) × ((f a s).0 ≡ ok b)
  bind-ok m f s b hm h =
      let (a, returned, rest) = continue-ok (m s).0 f (m s).1 h in
      (a, returned, subst (λ s'. (f a s').0 ≡ ok b) (hm s) rest)

  -- A guard that lets a call pass holds.
  pub guard-ok : (b : Bool) (e : Error) (s : S) (done : Unit) → (guard b e s).0 ≡ ok done → b ≡ true
  guard-ok true e s done h = refl
  guard-ok false e s done h = cc

  -- A sequence returns where both its parts do.
  pub bind-returns :
      {A B : Type ℓ} (m : Exec S A) (f : A → Exec S B) (s : S) (b : B)
      → ((m >>= f) s).0 ≡ ok b
      → (a : A) × ((m s).0 ≡ ok a) × ((f a (m s).1).0 ≡ ok b)
  bind-returns m f s b h = continue-ok (m s).0 f (m s).1 h

module _ {ℓ} {S A B : Type ℓ} where
  -- A sequence goes on where its first part returned.
  pub bind-goes :
      (m : Exec S A) (f : A → Exec S B) (s : S) (a : A) → (m s).0 ≡ ok a → (m >>= f) s ≡ f a (m s).1
  bind-goes m f s a h = ap (λ r. continue r f (m s).1) h

  -- A sequence whose first part only reads is its second part.
  pub bind-after :
      (m : Exec S A) (f : A → Exec S B) (s : S) (a : A)
      → IsReader m
      → (m s).0 ≡ ok a
      → (m >>= f) s ≡ f a s
  bind-after m f s a hm h = bind-goes m f s a h ∙ ap (f a) (hm s)

-- A sequence keeps a part of the state that its second part keeps.
pub continue-keeps {ℓ} :
    {S T A B : Type ℓ} (part : S → T) (r : Result A) (f : A → Exec S B) (s : S)
    → ((a : A) → part (f a s).1 ≡ part s)
    → part (continue r f s).1 ≡ part s
continue-keeps part (ok a) f s h = h a
continue-keeps part (err e) f s h = refl

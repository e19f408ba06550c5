-- ===== src/Mcping/Result.antt =====
-- The errors of internal/mcping, and the monad of its readers: a call that fails has still moved
-- the reader that it was given.
use mcmon.Prelude.{ℕ, ◌≡◌, refl, ap}

-- `stuck` is no Go value: a loop of the model ran out of fuel.
pub data Error : Type 0 where
  eof varint_too_long invalid_status_json stuck : Error
  net_error : ℕ → Error
  unexpected_status unexpected_pong : ℕ → Error

pub data Result {ℓ} (A : Type ℓ) : Type ℓ where
  ok : A → Result A
  err : Error → Result A

abbrev pub Exec {ℓ} : Type ℓ → Type ℓ → Type ℓ
Exec S A = S → Result A × S

module _ {ℓ} {S A : Type ℓ} where
  abbrev pub pure : A → Exec S A
  pure a s = (ok a, s)

  abbrev pub fail : Error → Exec S A
  fail e s = (err e, s)

  abbrev pub lift : Result A → Exec S A
  lift r s = (r, s)

module _ {ℓ} {S A B : Type ℓ} where
  abbrev pub continue : Result A → (A → Exec S B) → Exec S B
  continue (ok a) f s = f a s
  continue (err e) f s = (err e, s)

  infixl 10 ◌>>=◌ ◌>>◌
  abbrev pub ◌>>=◌ : Exec S A → (A → Exec S B) → Exec S B
  ◌>>=◌ m f s = let (r, s') = m s in continue r f s'

  abbrev pub ◌>>◌ : Exec S A → Exec S B → Exec S B
  m >> n = m >>= λ _. n

  -- A step that succeeds hands its value and its state on; one that fails ends the block.
  pub bind-ok :
      (m : Exec S A) (f : A → Exec S B) (s s' : S) (a : A)
      → (m s).0 ≡ ok a
      → (m s).1 ≡ s'
      → (m >>= f) s ≡ f a s'
  bind-ok m f s s' a e p = λ i. continue (e i) f (p i)

  pub bind-err :
      (m : Exec S A) (f : A → Exec S B) (s : S) (e : Error)
      → (m s).0 ≡ err e
      → (m >>= f) s ≡ (err e, (m s).1)
  bind-err m f s e h = λ i. continue (h i) f (m s).1

module _ {ℓ} {S A B C : Type ℓ} where
  continue_assoc :
      (x : Result A) (f : A → Exec S B) (g : B → Exec S C) (s : S)
      → continue (continue x f s).0 g (continue x f s).1 ≡ continue x (λ a. f a >>= g) s
  continue_assoc (ok a) f g s = refl
  continue_assoc (err e) f g s = refl

  pub bind_assoc :
      (m : Exec S A) (f : A → Exec S B) (g : B → Exec S C) (s : S)
      → ((m >>= f) >>= g) s ≡ (m >>= λ a. f a >>= g) s
  bind_assoc m f g s = continue_assoc (m s).0 f g (m s).1

module _ {ℓ} {S A B : Type ℓ} where
  -- Two blocks with one first step agree where their later steps do.
  pub continue-cong :
      (x : Result A) (f g : A → Exec S B) (s : S)
      → ((a : A) → f a s ≡ g a s)
      → continue x f s ≡ continue x g s
  continue-cong (ok a) f g s h = h a
  continue-cong (err e) f g s h = refl

  -- A block that succeeds has a first step that succeeds, and is its rest from there.
  pub bind-inv :
      (m : Exec S A) (f : A → Exec S B) (s : S) (b : B)
      → ((m >>= f) s).0 ≡ ok b
      → (a : A) × ((m s).0 ≡ ok a) × ((m >>= f) s ≡ f a (m s).1)
  bind-inv m f s b h = continue-inv (m s).0 refl h
    where
      continue-inv :
          (x : Result A)
          → (m s).0 ≡ x
          → (continue x f (m s).1).0 ≡ ok b
          → (a : A) × ((m s).0 ≡ ok a) × ((m >>= f) s ≡ f a (m s).1)
      continue-inv (ok a) e h = (a, e, ap (λ y. continue y f (m s).1) e)
      continue-inv (err x) e h = cc

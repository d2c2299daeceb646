-- ===== src/Store/Tx.antt =====
-- A transaction: a function of the database that returns a value and the new database, or an
-- error. An error is a rollback (`defer tx.Rollback(ctx)`), so it leaves no new database.
use along.Prelude.{
  ℕ, ◌==◌, if◌then◌else◌, ◌≡◌, refl, sym, subst, Bool, true, false, Option, none, some,
}
use along.Store.Result.{StoreError, Result, ok, err}
use along.Store.Schema.{Db}

abbrev pub Tx : Type 0 → Type 0
Tx A = Db → Result (A × Db)

module _ {A : Type 0} where
  abbrev pub pure : A → Tx A
  pure a db = ok (a, db)

  abbrev pub fail : StoreError → Tx A
  fail e db = err e

  abbrev pub gets : (Db → A) → Tx A
  gets f db = ok (f db, db)

  -- A row that a query must find.
  abbrev pub or_fail : StoreError → Option A → Tx A
  or_fail e none db = err e
  or_fail e (some a) db = ok (a, db)

abbrev pub modify : (Db → Db) → Tx (Unit {0})
modify f db = ok (tt, f db)

abbrev pub guard : Bool → StoreError → Tx (Unit {0})
guard true e db = ok (tt, db)
guard false e db = err e

infixl 5 ◌>>=◌ ◌>>◌
unfoldable pub ◌>>=◌ : {A B : Type 0} → Tx A → (A → Tx B) → Tx B
◌>>=◌ m f db = elim (m db) [ ok (a, db') ↦ f a db' | err e ↦ err e ]

abbrev pub ◌>>◌ : {B : Type 0} → Tx (Unit {0}) → Tx B → Tx B
m >> k = m >>= λ _. k

-- What the caller sees: the result, and the database after a commit or a rollback.
abbrev pub settle : {A : Type 0} → Db → Result (A × Db) → Result A × Db
settle db (ok (a, db')) = (ok a, db')
settle db (err e) = (err e, db)

-- Partial correctness of a transaction, one rule for each way to build one.
pub record Triple {A : Type 0} (P : Db → Type 0) (m : Tx A) (Q : A → Db → Type 0) : Type 0 where
  pub run : (db : Db) → P db → (a : A) (db' : Db) → m db ≡ ok (a, db') → Q a db'

module _ {A B : Type 0} {R : A → Db → Type 0} {Q : B → Db → Type 0} where
  bind_run :
      (r : Result (A × Db)) (f : A → Tx B)
      → ((a : A) (db' : Db) → r ≡ ok (a, db') → R a db')
      → ((a : A) → Triple (R a) (f a) Q)
      → (b : B) (db'' : Db) → (elim r [ ok (a, db') ↦ f a db' | err e ↦ err e ]) ≡ ok (b, db'')
      → Q b db''
  bind_run (ok (a, db')) f hr hf b db'' e = (hf a).run db' (hr a db' refl) b db'' e
  bind_run (err x) f hr hf b db'' e = cc

  pub Triple-bind :
      (P : Db → Type 0) (m : Tx A) (f : A → Tx B)
      → Triple P m R
      → ((a : A) → Triple (R a) (f a) Q)
      → Triple P (m >>= f) Q
  unfolding ◌>>=◌
  Triple-bind P m f hm hf = record {
    run = λ db p b db'' e. bind_run (m db) f (λ a db'. hm.run db p a db') hf b db'' e;
  }

-- `m` preserves `P`.
abbrev pub Keeps : {A : Type 0} → (Db → Type 0) → Tx A → Type 0
Keeps P m = Triple P m (λ _. P)

-- What a result ensures, if it is no error.
abbrev pub Post : {A : Type 0} → (A → Db → Type 0) → Result (A × Db) → Type 0
Post Q (ok (a, db)) = Q a db
Post Q (err e) = Unit {0}

module _ {A : Type 0} {P : Db → Type 0} {Q : A → Db → Type 0} where
  pub Triple-post : (m : Tx A) → ((db : Db) → P db → Post Q (m db)) → Triple P m Q
  Triple-post m h = record { run = λ db p a db' e. subst (Post Q) e (h db p) }

  pub Post-Triple : {m : Tx A} → Triple P m Q → (db : Db) → P db → Post Q (m db)
  Post-Triple {m} t db p = go (m db) refl
    where
      go : (r : Result (A × Db)) → m db ≡ r → Post Q r
      go (ok (a, db')) e = t.run db p a db' e
      go (err x) e = tt

module _ {A : Type 0} {P : Db → Type 0} where
  pub Keeps-pure : (a : A) → Keeps P (pure a)
  Keeps-pure a = Triple-post (pure a) (λ db p. p)

  pub Keeps-fail : (e : StoreError) → Keeps {A = A} P (fail e)
  Keeps-fail e = Triple-post (fail e) (λ db p. tt)

  pub Keeps-gets : (f : Db → A) → Keeps P (gets f)
  Keeps-gets f = Triple-post (gets f) (λ db p. p)

  pub Keeps-or_fail : (e : StoreError) (o : Option A) → Keeps P (or_fail e o)
  Keeps-or_fail e none = Triple-post (or_fail e none) (λ db p. tt)
  Keeps-or_fail e (some a) = Triple-post (or_fail e (some a)) (λ db p. p)

module _ {P : Db → Type 0} where
  pub Keeps-guard : (b : Bool) (e : StoreError) → Keeps P (guard b e)
  Keeps-guard true e = Triple-post (guard true e) (λ db p. p)
  Keeps-guard false e = Triple-post (guard false e) (λ db p. tt)

  pub Keeps-modify : (f : Db → Db) → ((db : Db) → P db → P (f db)) → Keeps P (modify f)
  Keeps-modify f h = Triple-post (modify f) h

module _ {A B : Type 0} {P : Db → Type 0} where
  pub Keeps-bind :
      (m : Tx A) (f : A → Tx B) → Keeps P m → ((a : A) → Keeps P (f a)) → Keeps P (m >>= f)
  Keeps-bind m f hm hf = Triple-bind P m f hm hf

-- `m` only reads.
abbrev pub Reads : {A : Type 0} → Tx A → Type 0
Reads {A} m = (db : Db) (a : A) (db' : Db) → m db ≡ ok (a, db') → db' ≡ db

module _ {A : Type 0} {P : Db → Type 0} where
  pub Keeps-Reads : (m : Tx A) → Reads m → Keeps P m
  Keeps-Reads m same = record { run = λ db p a db' e. subst P (sym (same db a db' e)) p }

-- A successful sequence, taken apart.
pub >>=-inv :
    {A B : Type 0} (m : Tx A) (f : A → Tx B) {db : Db} {b : B} {db'' : Db}
    → (m >>= f) db ≡ ok (b, db'')
    → (a : A) × (db' : Db) × (m db ≡ ok (a, db')) × (f a db' ≡ ok (b, db''))
unfolding ◌>>=◌
>>=-inv {A} {B} m f {db} {b} {db''} e = go (m db) refl e
  where
    go :
        (r : Result (A × Db))
        → m db ≡ r
        → (elim r [ ok (a, db') ↦ f a db' | err x ↦ err x ]) ≡ ok (b, db'')
        → (a : A) × (db' : Db) × (m db ≡ ok (a, db')) × (f a db' ≡ ok (b, db''))
    go (ok (a, db')) e1 e2 = (a, db', e1, e2)
    go (err x) e1 e2 = cc

-- A transaction that begins with a check or with a row to find.
module _ {B : Type 0} (Q : B → Db → Type 0) (e : StoreError) (db : Db) where
  pub Post-guard : (b : Bool) (k : Tx B) → (b ≡ true → Post Q (k db)) → Post Q ((guard b e >> k) db)
  unfolding ◌>>=◌
  Post-guard true k h = h refl
  Post-guard false k h = tt

  pub Post-found :
      {A : Type 0} (found : Option A) (k : A → Tx B)
      → ((a : A) → found ≡ some a → Post Q (k a db))
      → Post Q ((or_fail e found >>= k) db)
  unfolding ◌>>=◌
  Post-found none k h = tt
  Post-found (some a) k h = h a refl

  pub Post-insert :
      (taken : Bool) (db' : Db) (k : Tx B)
      → (taken ≡ false → Post Q (k db'))
      → Post Q (((λ d. if taken then err e else ok (tt, db')) >>= λ _. k) db)
  unfolding ◌>>=◌
  Post-insert true db' k h = tt
  Post-insert false db' k h = h refl

-- A step whose result and database satisfy `R`, and what follows it.
module _ {A B : Type 0} (R : A → Db → Type 0) (Q : B → Db → Type 0) where
  Post-then :
      (r : Result (A × Db)) (f : A → Tx B)
      → Post R r
      → ((a : A) (db' : Db) → R a db' → Post Q (f a db'))
      → Post Q (elim r [ ok (a, db') ↦ f a db' | err e ↦ err e ])
  Post-then (ok (a, db')) f h k = k a db' h
  Post-then (err e) f h k = tt

  pub Post-bind :
      (m : Tx A) (f : A → Tx B) (db : Db)
      → Post R (m db)
      → ((a : A) (db' : Db) → R a db' → Post Q (f a db'))
      → Post Q ((m >>= f) db)
  unfolding ◌>>=◌
  Post-bind m f db h k = Post-then (m db) f h k

module _ {A : Type 0} (Q : A → Db → Type 0) (db : Db) where
  pub Post-if :
      (b : Bool) (m n : Tx A)
      → (b ≡ true → Post Q (m db))
      → (b ≡ false → Post Q (n db))
      → Post Q ((if b then m else n) db)
  Post-if true m n h k = h refl
  Post-if false m n h k = k refl

-- A step whose outcome is known.
pub bind-ok :
    {A B : Type 0} (m : Tx A) (f : A → Tx B) (db : Db) (a : A) (db' : Db)
    → m db ≡ ok (a, db')
    → (m >>= f) db ≡ f a db'
unfolding ◌>>=◌
bind-ok m f db a db' e = rw (e, ◌>>=◌) refl

-- The database after a call, whatever it returns.
abbrev pub after : {A : Type 0} → Tx A → Db → Db
after m db = (settle db (m db)).1

pub Keeps-after :
    {A : Type 0} {P : Db → Type 0} (m : Tx A) → Keeps P m → (db : Db) → P db → P (after m db)
Keeps-after {A} {P} m keeps db p = go (m db) refl
  where
    go : (r : Result (A × Db)) → m db ≡ r → P (settle db r).1
    go (ok (a, db')) e = keeps.run db p a db' e
    go (err x) e = p

-- A statement that has to change one row.
pub Keeps-one :
    {A : Type 0} {P : Db → Type 0} (f : Db → ℕ) (e : StoreError) (k : Tx A)
    → Keeps P k
    → Keeps P (gets f >>= λ n. (guard (n == 1) e >> k))
Keeps-one f e k keeps =
    Keeps-bind _ _ (Keeps-gets f) λ n. Keeps-bind _ _ (Keeps-guard (n == 1) e) λ _. keeps

pub Post-one :
    {A : Type 0} (Q : A → Db → Type 0) (f : Db → ℕ) (e : StoreError) (k : Tx A) (db : Db)
    → Post Q (k db)
    → Post Q ((gets f >>= λ n. (guard (n == 1) e >> k)) db)
unfolding ◌>>=◌
Post-one Q f e k db h = Post-guard Q e db (f db == 1) k (λ _. h)

-- Two assignments in a row.
pub Post-modify :
    {A : Type 0} (Q : A → Db → Type 0) (f : Db → Db) (k : Tx A) (db : Db)
    → Post Q (k (f db))
    → Post Q ((modify f >> k) db)
unfolding ◌>>=◌
Post-modify Q f k db h = h

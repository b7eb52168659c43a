-- ===== src/Sync/Requests/Bounds.antt =====
-- What passes the schemas of services/sync/src/requestContract.ts is within their bounds.
use locus_browser.Base.{
  ℕ, ◌≡◌, ◌≤◌, refl, ap, String, Bool, true, false, ◌&&◌, Option, none, some, List, [], ◌∷◌, All,
  length, leb, ◌==◌, Bool-cases, inl, inr, arith, suc, subst,
}
use locus_browser.Base.Options.{◌>>=◌, ◌>>◌, require}
use locus_browser.Base.Patterns.{utf16_length}
use locus_browser.Sync.Requests.Values.{Platform}
use locus_browser.Sync.Requests.Support.{RecordBody}
use locus_browser.Sync.Requests.Checks.{
  clock_text, collection_of, bounded, literal, at_least, list_of, each, with_default,
}
use locus_browser.Sync.Requests.Schemas.{PushBody, record_schema, push_schema}

some_injective : {A : Type 0} {a b : A} → some a ≡ some b → a ≡ b
some_injective h = cc

-- A chain that has a result went through its first step.
pub >>=-eq-some :
    {A B : Type 0} (o : Option A) (f : A → Option B) (b : B)
    → (o >>= f) ≡ some b
    → (a : A) × (o ≡ some a) × (f a ≡ some b)
>>=-eq-some none f b h = cc
>>=-eq-some (some a) f b h = (a, refl, h)

require-eq-some :
    {B : Type 0} (test : Bool) (f : Option B) (b : B)
    → (require test >> f) ≡ some b
    → (test ≡ true) × (f ≡ some b)
require-eq-some true f b h = (refl, h)
require-eq-some false f b h = cc

abbrev pub HasLength : ℕ → ℕ → String → Type 0
HasLength low high s = (low ≤ utf16_length s) × (utf16_length s ≤ high)

both_leb : (a b c d : ℕ) → (leb a b && leb c d) ≡ true → (a ≤ b) × (c ≤ d)
both_leb a b c d h = ground arith

each-All :
    {A B : Type 0} (P : B → Type 0) (f : A → Option B)
    → ((a : A) (b : B) → f a ≡ some b → P b)
    → (xs : List A) (ys : List B) → each f xs ≡ some ys
    → All P ys × (length ys ≡ length xs)
unfolding each
each-All P f h [] ys e =
    let same : [] ≡ ys = cc in subst (λ zs. All P zs × (length zs ≡ 0)) same (tt, refl)
each-All P f h (x ∷ xs) ys e =
    let (y, first, rest) = >>=-eq-some (f x) _ ys e in
    let (zs, others, last) = >>=-eq-some (each f xs) _ ys rest in
    let (good, count) = each-All P f h xs zs others in
    let same : y ∷ zs ≡ ys = cc in
    subst (λ ws. All P ws × (length ws ≡ length (x ∷ xs))) same ((h x y first, good), ap suc count)

-- A record that the service takes in.
pub record IsRecordBody (r : RecordBody) : Type 0 where
  pub version : r.version ≡ 1
  pub account_id : HasLength 1 128 r.account_id
  pub device_id : HasLength 1 128 r.device_id
  pub record_id : HasLength 1 512 r.record_id
  pub clock : clock_text r.clock ≡ some tt
  pub nonce : HasLength 16 128 r.nonce
  pub ciphertext : HasLength 1 2800000 r.ciphertext

module _ {Json : Type 0} (p : Platform Json) where
  pub bounded_lem :
      (low high : ℕ) (j : Json) (s : String) → bounded p low high j ≡ some s → HasLength low high s
  unfolding bounded
  bounded_lem low high j s h =
      let (t, read, rest) = >>=-eq-some (p.string j) _ s h in
      let (fits, same) =
        require-eq-some (leb low (utf16_length t) && leb (utf16_length t) high) _ s rest in
      let e : t ≡ s = ground arith in
      rw (← e) (both_leb low (utf16_length t) (utf16_length t) high fits)

  version_lem : (j : Json) (n : ℕ) → with_default p 1 (literal p 1) j ≡ some n → n ≡ 1
  unfolding with_default literal
  version_lem j n h = elim (Bool-cases (p.is_undefined j)) [
    | inl absent ↦ let e : some 1 ≡ some n = rw absent at h in cc
    | inr there ↦
        let (m, read, rest) = >>=-eq-some (p.natural j) _ n (rw there at h) in
        let (fits, same) = require-eq-some (m == 1) _ n rest in ground arith
  ]

  -- What `RecordSchema` accepts is within its bounds.
  pub record_schema_lem : (j : Json) (r : RecordBody) → record_schema p j ≡ some r → IsRecordBody r
  unfolding record_schema
  record_schema_lem j r h =
      let (field, _, h1) = >>=-eq-some (p.object j) _ r h in
      let (version, v, h2) =
        >>=-eq-some (with_default p 1 (literal p 1) (field "version")) _ r h1 in
      let (account, a, h3) = >>=-eq-some (bounded p 1 128 (field "accountId")) _ r h2 in
      let (device, d, h4) = >>=-eq-some (bounded p 1 128 (field "deviceId")) _ r h3 in
      let (name, _, h5) = >>=-eq-some (p.string (field "collection")) _ r h4 in
      let (collection, _, h6) = >>=-eq-some (collection_of name) _ r h5 in
      let (id, i, h7) = >>=-eq-some (bounded p 1 512 (field "recordId")) _ r h6 in
      let (clock, _, h8) = >>=-eq-some (p.string (field "clock")) _ r h7 in
      let (u, c, h9) = >>=-eq-some (clock_text clock) _ r h8 in
      let (nonce, n, h10) = >>=-eq-some (bounded p 16 128 (field "nonce")) _ r h9 in
      let (cipher, t, h11) = >>=-eq-some (bounded p 1 2800000 (field "ciphertext")) _ r h10 in
      let (tombstone, _, h12) =
        >>=-eq-some (with_default p false p.boolean (field "tombstone")) _ r h11 in
      subst IsRecordBody (some_injective h12) (record {
        version = version_lem (field "version") version v;
        account_id = bounded_lem 1 128 (field "accountId") account a;
        device_id = bounded_lem 1 128 (field "deviceId") device d;
        record_id = bounded_lem 1 512 (field "recordId") id i;
        clock = c;
        nonce = bounded_lem 16 128 (field "nonce") nonce n;
        ciphertext = bounded_lem 1 2800000 (field "ciphertext") cipher t;
      })

  -- A push that passes `PushSchema` has a positive key version and at most 500 records; each record is
  -- of version 1, its clock has the form of a hybrid logical clock, and its texts are of the lengths that
  -- `RecordSchema` allows.
  pub push_schema_bounds :
      (j : Json) (body : PushBody)
      → push_schema p j ≡ some body
      → (1 ≤ body.key_version) × (length body.records ≤ 500) × All IsRecordBody body.records
  unfolding push_schema at_least list_of
  push_schema_bounds j body h =
      let (field, _, h1) = >>=-eq-some (p.object j) _ body h in
      let (version, v, h2) = >>=-eq-some (at_least p 1 (field "keyVersion")) _ body h1 in
      let (records, l, h3) =
        >>=-eq-some (list_of p (record_schema p) 0 500 (field "records")) _ body h2 in
      let (m, _, v1) = >>=-eq-some (p.natural (field "keyVersion")) _ version v in
      let (low, v2) = require-eq-some (leb 1 m) _ version v1 in
      let (items, _, l1) = >>=-eq-some (p.array (field "records")) _ records l in
      let (size, l2) =
        require-eq-some (leb 0 (length items) && leb (length items) 500) _ records l1 in
      let (good, count) =
        each-All IsRecordBody (record_schema p) record_schema_lem items records l2 in
      let most : length items ≤ 500 = (both_leb 0 (length items) (length items) 500 size).1 in
      let positive : 1 ≤ version = ground arith in
      subst (λ x. (1 ≤ x.key_version) × (length x.records ≤ 500) × All IsRecordBody x.records)
        (some_injective h3) (positive, omega (arith, count), good)

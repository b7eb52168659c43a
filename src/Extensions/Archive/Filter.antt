-- ===== src/Extensions/Archive/Filter.antt =====
-- Which directories the filter of `verifyLocusx` lets pass.
use locus_browser.Base.{
  ℕ, ◌+◌, ◌*◌, ◌≤◌, ◌≡◌, ◌↔◌, refl, String, true, false, not, ltb, List, [], ◌∷◌, has, map, length,
  ok, All, IsDistinct, arith, eq_iff,
}
use locus_browser.Base.Results.{fail_if-eq-ok}
use locus_browser.Extensions.Texts.{archive_path}
use locus_browser.Extensions.Archive.{
  FileInfo, filter_files, megabyte, unsafe_path, duplicate_path, too_many_files, file_too_large,
  expanded_too_large,
}

abbrev pub names : List FileInfo → List String
names files = map (λ file. file.name) files

abbrev pub expanded_size : List FileInfo → ℕ
expanded_size [] = 0
expanded_size (file ∷ files) = file.original_size + expanded_size files

abbrev pub IsAdmissible : FileInfo → Type 0
IsAdmissible file = (archive_path file.name ≡ true) × (file.original_size ≤ 25 * megabyte)

-- After some files, whose paths, number and bytes are known.
record Admits (files : List FileInfo) (paths : List String) (count bytes : ℕ) : Type 0 where
  admissible : All IsAdmissible files
  distinct : IsDistinct (names files)
  fresh : All (λ file. has paths file.name ≡ false) files
  few : count + length files ≤ 5002
  small : bytes + expanded_size files ≤ 50 * megabyte

fresh_more :
    (files : List FileInfo) (paths : List String) (name : String)
    → All (λ file. has (name ∷ paths) file.name ≡ false) files
      ↔ (All (λ file. has paths file.name ≡ false) files × (has (names files) name ≡ false))
unfolding has
fresh_more [] paths name = (λ h. (tt, refl), λ h. tt)
fresh_more (file ∷ files) paths name =
    let (to, of) = fresh_more files paths name in
    (
      λ (a, b).
          let (c, d) = to b in
          ((ground (arith, a), c), ground (arith, eq_iff name file.name, eq_iff file.name name)),
      λ ((a, b), c).
          (ground (arith, eq_iff name file.name, eq_iff file.name name), of (b, ground arith)),
    )

filter_files_iff :
    (files : List FileInfo) (paths : List String) (count bytes : ℕ)
    → count ≤ 5002
    → bytes ≤ 50 * megabyte
    → (filter_files files paths count bytes ≡ ok tt) ↔ Admits files paths count bytes
unfolding filter_files
filter_files_iff [] paths count bytes c b = (
  λ h. record {
    admissible = tt;
    distinct = tt;
    fresh = tt;
    few = omega arith;
    small = omega arith;
  },
  λ a. refl,
)
filter_files_iff (file ∷ files) paths count bytes c b = (
  λ h.
      let (e1, h1) = fail_if-eq-ok (not (archive_path file.name)) (unsafe_path file.name) _ tt h in
      let (e2, h2) = fail_if-eq-ok (has paths file.name) (duplicate_path file.name) _ tt h1 in
      let (e3, h3) = fail_if-eq-ok (ltb 5002 (count + 1)) too_many_files _ tt h2 in
      let (e4, h4) =
        fail_if-eq-ok (ltb (25 * megabyte) file.original_size) (file_too_large file.name) _ tt h3 in
      let (e5, h5) =
        fail_if-eq-ok (ltb (50 * megabyte) (bytes + file.original_size)) expanded_too_large _ tt
          h4 in
      let rest =
        (filter_files_iff files (file.name ∷ paths) (count + 1) (bytes + file.original_size)
            (ground arith) (ground arith)).0
          h5 in
      let (fresh, once) = (fresh_more files paths file.name).0 rest.fresh in
      record {
        admissible = ((ground arith, ground arith), rest.admissible);
        distinct = (once, rest.distinct);
        fresh = (e2, fresh);
        few = omega (arith, rest.few);
        small = omega (arith, rest.small);
      },
  λ a.
      let e1 : not (archive_path file.name) ≡ false = ground (arith, a.admissible.0) in
      let e3 : ltb 5002 (count + 1) ≡ false = ground (arith, a.few) in
      let e4 : ltb (25 * megabyte) file.original_size ≡ false = ground (arith, a.admissible.0) in
      let e5 : ltb (50 * megabyte) (bytes + file.original_size) ≡ false = ground (arith, a.small) in
      let rest =
        (filter_files_iff files (file.name ∷ paths) (count + 1) (bytes + file.original_size)
            (omega (arith, a.few)) (omega (arith, a.small))).1
          (record {
            admissible = a.admissible.1;
            distinct = a.distinct.1;
            fresh = (fresh_more files paths file.name).1 (a.fresh.1, a.distinct.0);
            few = omega (arith, a.few);
            small = omega (arith, a.small);
          }) in
      rw (e1, a.fresh.0, e3, e4, e5) rest,
)

none_seen : (files : List FileInfo) → All (λ file. has [] file.name ≡ false) files
unfolding has
none_seen [] = tt
none_seen (file ∷ files) = (refl, none_seen files)

-- The filter lets an archive pass exactly if each of its files has a safe path and at most 25 MB, no path
-- stands twice, and there are at most 5,002 files that have at most 50 MB together.
pub filter_files_lem :
    (files : List FileInfo)
    → (filter_files files [] 0 0 ≡ ok tt) ↔ (
        All IsAdmissible files
        × IsDistinct (names files)
        × (length files ≤ 5002)
        × (expanded_size files ≤ 50 * megabyte))
filter_files_lem files =
    let (to, of) = filter_files_iff files [] 0 0 (omega arith) (omega arith) in
    (
      λ h. let a = to h in (a.admissible, a.distinct, omega (arith, a.few), omega (arith, a.small)),
      λ (a, b, c, d). of (record {
        admissible = a;
        distinct = b;
        fresh = none_seen files;
        few = omega arith;
        small = omega arith;
      }),
    )

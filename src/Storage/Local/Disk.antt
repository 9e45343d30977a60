-- ===== src/Storage/Local/Disk.antt =====
-- A disk in memory, which meets the laws of the file system; the tests run on it.
use nestjs_starter.Prelude.{
  String, str_eq, eq_iff, eq_refl, Bool, true, false, ◌&&◌, ◌≡◌, ◌≢◌, refl, ap, Option, none, some,
  [], ◌∷◌, if◌then◌else◌, Bool-cases, inl, inr, arith,
}
use nestjs_starter.Storage.Local.{Location, FsResult, fs_ok, fs_error, enoent, FileSystem}

abbrev same : Location → Location → Bool
same [] [] = true
same [] (t ∷ q) = false
same (s ∷ p) [] = false
same (s ∷ p) (t ∷ q) = str_eq s t && same p q

same_refl : (p : Location) → same p p ≡ true
same_refl [] = refl
same_refl (s ∷ p) = rw (eq_refl s) (same_refl p)

same→eq : (p q : Location) → same p q ≡ true → p ≡ q
same→eq [] [] h = refl
same→eq [] (t ∷ q) h = absurd (cc)
same→eq (s ∷ p) [] h = absurd (cc)
same→eq (s ∷ p) (t ∷ q) h =
    let first : str_eq s t ≡ true = ground (arith, h) in
    let rest : same p q ≡ true = ground (arith, h) in cc ((eq_iff s t).0 first, same→eq p q rest)

module _ (B : Type 0) where
  abbrev pub Disk : Type 0
  Disk = Location → Option B

  abbrev pub put : Location → Option B → Disk → Disk
  put p b d = λ q. if same q p then b else d q

  pub put_at : (p : Location) (b : Option B) (d : Disk) → put p b d p ≡ b
  put_at p b d = rw (same_refl p) refl

  pub put_other : (p q : Location) (b : Option B) (d : Disk) → q ≢ p → put p b d q ≡ d q
  put_other p q b d n = elim (Bool-cases (same q p)) [
    | inl t ↦ absurd (n (same→eq q p t))
    | inr f ↦ rw f refl
  ]

  abbrev opened : Option B → FsResult B
  opened none = fs_error enoent "ENOENT"
  opened (some b) = fs_ok b

  abbrev found : Option B → FsResult (Unit {0})
  found none = fs_error enoent "ENOENT"
  found (some b) = fs_ok tt

  pub opened_ok : (b : B) (o : Option B) → opened o ≡ fs_ok b → o ≡ some b
  opened_ok b none e = absurd (cc)
  opened_ok b (some a) e = cc

  pub opened_enoent : (m : String) (o : Option B) → opened o ≡ fs_error enoent m → o ≡ none
  opened_enoent m none e = refl
  opened_enoent m (some a) e = absurd (cc)

  abbrev pub disk : FileSystem B
  disk = record {
    Fs = Disk;
    files = λ d p. d p;
    mkdir = λ p d. (fs_ok tt, d);
    write_file = λ p b d. (fs_ok tt, put p (some b) d);
    unlink = λ p d. (found (d p), put p none d);
    read_file = λ p d. opened (d p);
    access = λ p d. found (d p);
    files-mkdir = λ p q d. refl;
    files-write_ok = λ p b d e. put_at p (some b) d;
    files-write_other = λ p q b d n. put_other p q (some b) d n;
    files-unlink_ok = λ p d e. put_at p none d;
    files-unlink_enoent = λ p d m e. put_at p none d;
    files-unlink_other = λ p q d n. put_other p q none d n;
    read_file_ok = λ p b d e. opened_ok b (d p) e;
    read_file_enoent = λ p m d e. opened_enoent m (d p) e;
    access-file = λ p b d e. ap found e;
  }

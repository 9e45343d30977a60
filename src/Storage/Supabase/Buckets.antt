-- ===== src/Storage/Supabase/Buckets.antt =====
-- Buckets in memory, which meet the laws of the client; the tests run on them.
use Prim.Native.String.{◌++◌ as append}
use nestjs_starter.Prelude.{
  ℕ, String, str_eq, eq_iff, eq_refl, ◌&&◌, ◌≡◌, ◌≢◌, refl, ◌∙◌, Option, none, some, is_some, List,
  [], ◌∷◌, map, if◌then◌else◌, ◌⊎◌, inl, inr, arith, All,
}
use nestjs_starter.Storage.Supabase.{signed, SupabaseClient}

abbrev pub Objects : Type 0
Objects = String → String → Option ℕ

abbrev pub put : String → String → Option ℕ → Objects → Objects
put b p content o = λ b' p'. if str_eq b' b && str_eq p' p then content else o b' p'

abbrev pub remove_all : String → List String → Objects → Objects
remove_all b [] o = o
remove_all b (p ∷ ps) o = remove_all b ps (put b p none o)

pub put_at : (b p : String) (content : Option ℕ) (o : Objects) → put b p content o b p ≡ content
put_at b p content o = rw (eq_refl b, eq_refl p) refl

pub put_other :
    (b p b' p' : String) (content : Option ℕ) (o : Objects)
    → (b ≢ b') ⊎ (p ≢ p')
    → put b p content o b' p' ≡ o b' p'
put_other b p b' p' content o n = ground (arith, n, eq_iff b' b, eq_iff p' p)

pub remove_all_other :
    (b : String) (ps : List String) (b' p' : String) (o : Objects)
    → (b ≢ b') ⊎ All (λ p. p ≢ p') ps
    → remove_all b ps o b' p' ≡ o b' p'
remove_all_other b [] b' p' o n = refl
remove_all_other b (p ∷ ps) b' p' o (inl n) =
    remove_all_other b ps b' p' (put b p none o) (inl n) ∙ put_other b p b' p' none o (inl n)
remove_all_other b (p ∷ ps) b' p' o (inr (n, ns)) =
    remove_all_other b ps b' p' (put b p none o) (inr ns) ∙ put_other b p b' p' none o (inr n)

abbrev pub buckets : SupabaseClient ℕ
buckets = record {
  State = Objects;
  objects = λ o. o;
  upload = λ b p content mime o. (none, put b p (some content) o);
  remove = λ b ps o. (none, remove_all b ps o);
  has = λ b p o. is_some (o b p);
  download = λ b p o. o b p;
  get_public_url = λ b p. append b (append "/" p);
  create_signed_url = λ b p ttl o. signed (append b (append "/" p));
  create_signed_urls = λ b ps ttl o. inl (map (λ p. signed (append b (append "/" p))) ps);
  objects-upload_ok = λ b p content mime o e. put_at b p (some content) o;
  objects-upload_other = λ b p b' p' content mime o n. put_other b p b' p' (some content) o n;
  objects-remove_ok = λ b p o e. put_at b p none o;
  objects-remove_other = λ b ps b' p' o n. remove_all_other b ps b' p' o n;
  download_ok = λ b p content o e. e;
}

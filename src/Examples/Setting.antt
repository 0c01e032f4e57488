-- ===== src/Examples/Setting.antt =====
-- A setup for examples: a cache that keeps nothing, file names that are longer than all names in
-- use, and a checksum that is the length of the hashed bytes.
use Prim.Native.String.{◌++◌ as append, count}
use text.Mathlib.TextLemmas.{length-append}
use qt_data_sync.Common.{
  ℕ, zero, suc, ◌<◌, ◌≤◌, true, false, String, none, [], ◌∷◌, ◌≡◌, refl, inl, ap, length, arith,
}
use qt_data_sync.Common.Equality.{◌==◌, ne→false}
use qt_data_sync.Json.{Bytes}
use qt_data_sync.Table.{get}
use qt_data_sync.Environment.{path_eq, Files, prefer_changed, Qt, Env, IsLawful}

-- The byte 1 as often as a number says, for a text as often as it has characters.
abbrev unary : ℕ → Bytes
unary zero = []
unary (suc n) = b'1' ∷ unary n

unfoldable pub joined : Files → String
joined [] = "x"
joined ((p, d) ∷ files) = append p.base_name (joined files)

joined-long : (files : Files) → zero < count (joined files)
unfolding joined
joined-long [] = omega arith
joined-long ((p, d) ∷ files) =
    let h = joined-long files in let e = length-append p.base_name (joined files) in ground arith

-- A name at least as long as the joined names is not in use.
joined-new :
    (files : Files) (d : Bytes) (name : String)
    → count (joined files) ≤ count name
    → get (record { directory = d; base_name = name }) files ≡ none
unfolding joined get
joined-new [] d name h = refl
joined-new ((p, doc) ∷ files) d name h =
    let e = length-append p.base_name (joined files) in
    let long = joined-long files in
    let rest = joined-new files d name (omega arith) in
    let other : (p == record { directory = d; base_name = name }) ≡ false = ne→false p _ (λ q.
      let lengths : count p.base_name ≡ count name = ap (λ x. count x.base_name) q in
      omega arith) in
    rw other rest

-- Nothing is ever cached.
unfoldable pub qt : Qt (Unit {0})
qt = record {
  text = record { to_utf8 = λ s. unary (count s); number = unary; sha3_256 = length };
  percent_encode = λ t. t;
  temporary_name = λ files d. joined files;
  file_size = λ d. 1;
  cache_insert = λ k d cost c. c;
  cache_object = λ k c. none;
  cache_remove = λ k c. c;
  cache_clear = λ c. c;
}

unfoldable pub env : Env (Unit {0})
env = record {
  qt = qt;
  persist_deleted = true;
  conflict_policy = prefer_changed;
  conflict_resolver = none;
}

pub lawful : IsLawful env
unfolding env qt
lawful = record {
  object-insert = λ k j d cost c. inl refl;
  object-remove = λ k j c. ground arith;
  object-clear = λ k c. refl;
  temporary_new = λ files d. joined-new files d (joined files) (omega arith);
}

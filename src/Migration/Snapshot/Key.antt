-- ===== src/Migration/Snapshot/Key.antt =====
-- Reading the key that pgdump-snapshot.sh prints, for `_parse_snapshot_key` of
-- infra/runners/migration_runner/snapshot.py.
use odoo_custom.Prelude.{◌≡◌, refl, ap, ◌∙◌, List, [], ◌∷◌, ◌++◌, Option, some, arith, All}
use odoo_custom.Prelude.Text.{Text, codes, strip}
use odoo_custom.Prelude.Split.{behind-append, IsUnbroken, splitlines_last}
use odoo_custom.Migration.Snapshot.{
  last_found, stripped, key_marker, key_of_line, parse_snapshot_key,
}

last_found_last :
    (f : Text → Option Text) (pre : List Text) (l : Text) {t : Text}
    → f l ≡ some t
    → last_found f (pre ++ (l ∷ [])) ≡ some t
unfolding last_found
last_found_last f [] l e = e
last_found_last f (p ∷ pre) l e = rw (last_found_last f pre l e) refl

All-append {ℓ} :
    {A : Type ℓ} (P : A → Type 0) (xs ys : List A) → All P xs → All P ys → All P (xs ++ ys)
All-append P [] ys a b = b
All-append P (x ∷ xs) ys a b = (a.0, All-append P xs ys a.1 b)

-- Whatever the script has printed before, the key that it prints on its last line is read, without
-- the spaces around it.
pub parse_snapshot_key-print :
    (out key : Text)
    → All IsUnbroken key
    → parse_snapshot_key (out ++ (10 ∷ ((key_marker ++ key) ++ (10 ∷ [])))) ≡ some (strip key)
unfolding parse_snapshot_key
parse_snapshot_key-print out key all =
    let (pre, lines) =
      splitlines_last out b'S' (codes "NAPSHOT_KEY=" ++ key)
        (All-append IsUnbroken key_marker key (ground arith) all) in
    ap (last_found key_of_line) lines
    ∙ last_found_last key_of_line pre (key_marker ++ key)
        (ap stripped (behind-append key_marker key))

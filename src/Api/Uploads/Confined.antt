-- ===== src/Api/Uploads/Confined.antt =====
-- What the handlers of src/api/UploadController.hpp do to the disk.
use tarassov_me.Prelude.{
  ◌≡◌, ◌≢◌, ◌⊎◌, take, inl, inr, refl, sym, Bool, true, false, not, ◌||◌, ◌∷◌, ◌++◌, Option, none,
  some, Str, codes, str_eq, str_eq_sound, Bool-cases, if◌then◌else◌, ltb, length, is_empty,
}
use tarassov_me.Storage.{
  Disk, Write, accepted, refused, cut_short, key_is_safe, path_of, resolve, written, put_at, put,
  remove_at, remove_object, url,
}
use tarassov_me.Api.Uploads.{
  Reply, Site, image_bytes_match, after_url, after_put, upload_key, put_typed, put_file, upload,
  after_remove, remove_found, is_bad_name, delete_upload,
}

-- A request that changes the store.
pub data Call : Type 0 where
  upload_file : Str → Option (Str × Str) → Call
  delete_file : Str → Call

unfoldable pub handle : Site → Call → Disk → Reply × Disk
handle site (upload_file random file) d = upload site random file d
handle site (delete_file name) d = delete_upload site name d

-- `d'` is `d`, or differs from it at the path of one safe key below posts/ only.
abbrev pub Confined : Str → Disk → Disk → Type 0
Confined root d d' =
    (d' ≡ d)
    ⊎ ((key : Str) × (key_is_safe (codes "posts/" ++ key) ≡ true)
        × ((p : Str) → p ≢ path_of root (codes "posts/" ++ key) → d' p ≡ d p))

Confined-none : (root : Str) (d : Disk) → Confined root d d
Confined-none root d = inl refl

Confined-written :
    (root key : Str) (content : Option Str) (d : Disk)
    → key_is_safe (codes "posts/" ++ key) ≡ true
    → Confined root d (written (path_of root (codes "posts/" ++ key)) content d)
Confined-written root key content d safe = inr (
  key,
  safe,
  λ p ne. elim (Bool-cases (str_eq (path_of root (codes "posts/" ++ key)) p)) [
    | inl y ↦ absurd (ne (sym (str_eq_sound (path_of root (codes "posts/" ++ key)) p y)))
    | inr n ↦ rw n refl
  ],
)

Confined-after_url :
    (root : Str) (d d' : Disk) (u : Option Str)
    → Confined root d d'
    → Confined root d (after_url d' u).1
Confined-after_url root d d' none c = c
Confined-after_url root d d' (some u) c = c

Confined-after_put :
    (site : Site) (key bytes : Str) (d : Disk) (safe : Bool) (w : Write)
    → key_is_safe (codes "posts/" ++ key) ≡ safe
    → Confined site.root d
        (after_put site.public_base (codes "posts/" ++ key) (
          put_at w bytes d
            (if safe then some (path_of site.root (codes "posts/" ++ key)) else none))).1
Confined-after_put site key bytes d false w e = Confined-none site.root d
Confined-after_put site key bytes d true accepted e =
    Confined-after_url site.root d _ (url site.public_base (codes "posts/" ++ key))
      (Confined-written site.root key (some bytes) d e)
Confined-after_put site key bytes d true refused e = Confined-none site.root d
Confined-after_put site key bytes d true (cut_short n) e =
    Confined-written site.root key (some (take n bytes)) d e

-- Each answer that is not a change of the disk.
Confined-if :
    (root : Str) (d : Disk) (test : Bool) (r : Reply) (x : Reply × Disk)
    → (test ≡ false → Confined root d x.1)
    → Confined root d (if test then (r, d) else x).1
Confined-if root d true r x k = Confined-none root d
Confined-if root d false r x k = k refl

Confined-put_typed :
    (site : Site) (random ext bytes : Str) (d : Disk) (t : Option Str)
    → Confined site.root d (put_typed site random ext bytes d t).1
unfolding put resolve
Confined-put_typed site random ext bytes d none = Confined-none site.root d
Confined-put_typed site random ext bytes d (some type) =
    Confined-if site.root d (is_empty bytes || ltb 5242880 (length bytes)) _ _ λ _.
      Confined-if site.root d (not (image_bytes_match ext bytes)) _ _ λ _.
        Confined-if site.root d (not site.has_storage) _ _ λ _.
          Confined-after_put site (random ++ (46 ∷ ext)) bytes d
            (key_is_safe (upload_key random ext)) site.write refl

Confined-put_file :
    (site : Site) (random : Str) (d : Disk) (file : Option (Str × Str))
    → Confined site.root d (put_file site random d file).1
Confined-put_file site random d none = Confined-none site.root d
Confined-put_file site random d (some (ext, bytes)) = Confined-put_typed site random _ bytes d _

Confined-remove :
    (site : Site) (name : Str) (d : Disk) (safe : Bool)
    → key_is_safe (codes "posts/" ++ name) ≡ safe
    → Confined site.root d
        (after_remove d (
          remove_at d (if safe then some (path_of site.root (codes "posts/" ++ name)) else none))).1
Confined-remove site name d false e = Confined-none site.root d
Confined-remove site name d true e = Confined-written site.root name none d e

Confined-remove_found :
    (site : Site) (name : Str) (d : Disk) (found : Option Bool)
    → Confined site.root d (remove_found site (codes "posts/" ++ name) d found).1
unfolding remove_object resolve
Confined-remove_found site name d none = Confined-none site.root d
Confined-remove_found site name d (some false) = Confined-none site.root d
Confined-remove_found site name d (some true) =
    Confined-remove site name d (key_is_safe (codes "posts/" ++ name)) refl

handled : (site : Site) (call : Call) (d : Disk) → Confined site.root d (handle site call d).1
unfolding handle upload delete_upload
handled site (upload_file random file) d =
    Confined-if site.root d (not site.is_admin) _ _ λ _. Confined-put_file site random d file
handled site (delete_file name) d = Confined-if site.root d (not site.is_admin) _ _ λ _.
    Confined-if site.root d (is_bad_name name) _ _ λ _.
      Confined-if site.root d (not site.has_storage) _ _ λ _. Confined-remove_found site name d _

stranger :
    (site : Site) (call : Call) (d : Disk) → site.is_admin ≡ false → (handle site call d).1 ≡ d
unfolding handle upload delete_upload
stranger site (upload_file random file) d e = rw e refl
stranger site (delete_file name) d e = rw e refl

-- An upload or a deletion, whatever the file, its extension, the random text or the name in the
-- path, and however a write ends, leaves the disk as it was or changes it at the path of one key
-- below posts/ that is safe, every other path holding what it held; and it changes nothing where the
-- caller is no administrator.
pub handle-Confined :
    (site : Site) (call : Call) (d : Disk)
    → Confined site.root d (handle site call d).1
      × (site.is_admin ≡ false → (handle site call d).1 ≡ d)
handle-Confined site call d = (handled site call d, stranger site call d)

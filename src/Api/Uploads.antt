-- ===== src/Api/Uploads.antt =====
-- src/api/UploadController.hpp: uploads of images on local storage. A reply has its status, its
-- content type and its body; `threw` is an exception that leaves the handler.
pub mod Confined
mod Tests
use tarassov_me.Prelude.{
  ℕ, ◌+◌, ◌*◌, Bool, true, false, not, ◌&&◌, ◌||◌, List, [], ◌∷◌, ◌++◌, Option, none, some, Str,
  codes, str_eq, any, leb, ltb, length, take, drop, map, reverse, ◌==◌, if◌then◌else◌, is_empty,
}
use tarassov_me.Storage.{
  Write, Disk, put, get_object, remove_object, exists_object, url, key_is_safe,
}
use tarassov_me.Utils.Strings.Prefix.{starts_with, contains}

pub data Reply : Type 0 where
  reply : ℕ → Str → Str → Reply
  threw : Reply

-- What the handlers read of the process: whether the caller passes `require_admin`, whether storage
-- is initialized and serves its files here, where they are, and how a write ends on the disk.
pub record Site : Type 0 where
  pub is_admin : Bool
  pub has_storage : Bool
  pub serves_locally : Bool
  pub root : Str
  pub public_base : Str
  pub write : Write

abbrev to_lower : ℕ → ℕ
to_lower c = if leb 65 c && leb c 90 then c + 32 else c

unfoldable pub image_bytes_match : Str → Str → Bool
image_bytes_match ext b =
    if str_eq ext (codes "jpg") || str_eq ext (codes "jpeg")
    then starts_with (255 ∷ 216 ∷ 255 ∷ []) b
    else if str_eq ext (codes "png")
    then starts_with (137 ∷ 80 ∷ 78 ∷ 71 ∷ 13 ∷ 10 ∷ 26 ∷ 10 ∷ []) b
    else if str_eq ext (codes "gif")
    then starts_with (codes "GIF87a") b || starts_with (codes "GIF89a") b
    else if str_eq ext (codes "webp")
    then leb 12 (length b)
      && starts_with (codes "RIFF") b
      && str_eq (take 4 (drop 8 b)) (codes "WEBP")
    else false

unfoldable pub type_of_ext : Str → Option Str
type_of_ext ext =
    if str_eq ext (codes "jpg") || str_eq ext (codes "jpeg")
    then some (codes "image/jpeg")
    else if str_eq ext (codes "png")
    then some (codes "image/png")
    else if str_eq ext (codes "gif")
    then some (codes "image/gif")
    else if str_eq ext (codes "webp")
    then some (codes "image/webp")
    else none

-- What follows the last `c`, or all of it.
abbrev after_last : ℕ → Str → Option Str
after_last c [] = none
after_last c (x ∷ s) =
    let rest = after_last c s in
    elim rest [ none ↦ (if x == c then some s else none) | some r ↦ some r ]

abbrev or_all : Str → Option Str → Str
or_all s none = s
or_all s (some r) = r

abbrev ext_of : Option Str → Str
ext_of none = []
ext_of (some ext) = map to_lower ext

abbrev or_octets : Option Str → Str
or_octets none = codes "application/octet-stream"
or_octets (some t) = t

unfoldable pub content_type_for : Str → Str
content_type_for name = or_octets (type_of_ext (ext_of (after_last 46 name)))

abbrev pub after_url : Disk → Option Str → Reply × Disk
after_url d none = (threw, d)
after_url d (some u) = (reply 201 (codes "application/json") u, d)

abbrev pub after_put : Str → Str → Bool × Disk → Reply × Disk
after_put base key (false, d) = (reply 503 [] (codes "storage_error"), d)
after_put base key (true, d) = after_url d (url base key)

abbrev pub upload_key : Str → Str → Str
upload_key random ext = codes "posts/" ++ (random ++ (46 ∷ ext))

abbrev pub put_typed : Site → Str → Str → Str → Disk → Option Str → Reply × Disk
put_typed site random ext bytes d none = (reply 400 [] (codes "unsupported_type"), d)
put_typed site random ext bytes d (some type) =
    if is_empty bytes || ltb 5242880 (length bytes)
    then (reply 400 [] (codes "bad_size"), d)
    else if not (image_bytes_match ext bytes)
    then (reply 400 [] (codes "bad_content"), d)
    else if not site.has_storage
    then (reply 503 [] (codes "storage_unavailable"), d)
    else after_put site.public_base (upload_key random ext)
        (put site.write site.root (upload_key random ext) bytes d)

-- `file` is the first one of the form, with its extension and its bytes.
abbrev pub put_file : Site → Str → Disk → Option (Str × Str) → Reply × Disk
put_file site random d none = (reply 400 [] (codes "no_file"), d)
put_file site random d (some (ext, bytes)) =
    put_typed site random (map to_lower ext) bytes d (type_of_ext (map to_lower ext))

unfoldable pub upload : Site → Str → Option (Str × Str) → Disk → Reply × Disk
upload site random file d =
    if not site.is_admin then (reply 403 [] (codes "forbidden"), d) else put_file site random d file

abbrev pub after_remove : Disk → Option Disk → Reply × Disk
after_remove d none = (threw, d)
after_remove d (some d') = (reply 200 (codes "application/json") (codes "Upload deleted"), d')

abbrev pub remove_found : Site → Str → Disk → Option Bool → Reply × Disk
remove_found site key d none = (threw, d)
remove_found site key d (some false) = (reply 404 [] (codes "upload"), d)
remove_found site key d (some true) = after_remove d (remove_object site.root key d)

abbrev pub is_bad_name : Str → Bool
is_bad_name name =
    is_empty name
    || any (λ c. c == 47) name
    || contains (codes "..") name
    || any (λ c. c == 92) name

unfoldable pub delete_upload : Site → Str → Disk → Reply × Disk
delete_upload site name d =
    if not site.is_admin
    then (reply 403 [] (codes "forbidden"), d)
    else if is_bad_name name
    then (reply 400 [] (codes "invalid_name"), d)
    else if not site.has_storage
    then (reply 503 [] (codes "storage_unavailable"), d)
    else remove_found site (codes "posts/" ++ name) d
        (exists_object site.root (codes "posts/" ++ name) d)

abbrev pub served : Str → Option (Option Str) → Reply
served type none = reply 503 [] (codes "storage_error")
served type (some none) = reply 404 [] (codes "upload")
served type (some (some bytes)) = reply 200 type bytes

unfoldable pub serve_upload : Site → Str → Disk → Reply
serve_upload site key d =
    let type = content_type_for (or_all key (after_last 47 key)) in
    if not (key_is_safe key) || any (λ c. c == 92) key
    then reply 404 [] (codes "upload")
    else if str_eq type (codes "application/octet-stream")
    then reply 404 [] (codes "upload")
    else if not site.has_storage || not site.serves_locally
    then reply 404 [] (codes "upload")
    else served type (get_object site.root key d)

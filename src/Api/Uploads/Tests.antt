-- ===== src/Api/Uploads/Tests.antt =====
-- The uploads of src/api/UploadController.hpp on concrete requests.
use tarassov_me.Prelude.{◌≡◌, refl, true, false, [], ◌∷◌, none, some, codes}
use tarassov_me.Storage.{Disk, accepted, key_is_safe}
use tarassov_me.Utils.Strings.Prefix.{contains, starts_with}
use tarassov_me.Api.Uploads.{Site, reply, serve_upload}
use tarassov_me.Api.Uploads.Confined.{Call, upload_file, handle, Confined, handle-Confined}

abbrev site : Site
site = record {
  is_admin = true;
  has_storage = true;
  serves_locally = true;
  root = codes "/data";
  public_base = [];
  write = accepted;
}

abbrev empty : Disk
empty p = none

abbrev call : Call
call = upload_file (codes "00ff") (some (codes "JPG", 255 ∷ 216 ∷ 255 ∷ 0 ∷ []))

handle-Confined_example :
    Confined (codes "/data") empty (handle site call empty).1
    × (true ≡ false → (handle site call empty).1 ≡ empty)
handle-Confined_example = handle-Confined site call empty

traversal : serve_upload site (codes "posts/../x.png") empty ≡ reply 404 [] (codes "upload")
unfolding serve_upload key_is_safe contains starts_with
traversal = refl

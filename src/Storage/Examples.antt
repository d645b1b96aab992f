-- ===== src/Storage/Examples.antt =====
-- Tests of the file names.
use smart_patents_storage_sy.Prelude.{◌≡◌, refl}
use smart_patents_storage_sy.Storage.Filename.{sanitise_filename}
use smart_patents_storage_sy.Storage.Filename.Safe.{IsSafe, sanitise_filename-IsSafe}

traversal : sanitise_filename "../../etc/.pass wd" ≡ "pass_wd"
unfolding sanitise_filename
traversal = refl

sanitise_filename-IsSafe_example : IsSafe (sanitise_filename "../../etc/.pass wd")
sanitise_filename-IsSafe_example = sanitise_filename-IsSafe "../../etc/.pass wd"

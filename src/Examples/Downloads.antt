-- ===== src/Examples/Downloads.antt =====
-- A mirror with a checksum manifest and one body for every asset, for src/setup/image.rs.
use vm_rs.Prelude.{ℕ, ◌≡◌, refl, Bool, true, false, Option, none, some, List, [], ◌∷◌, ◌++◌}
use vm_rs.Prelude.Lists.{replicate}
use vm_rs.Prelude.Text.{Str, codes}
use vm_rs.Result.{ok}
use vm_rs.Disk.{Disk, Bytes}
use vm_rs.Images
use vm_rs.Images.Preparing
use vm_rs.Images.Complete.{Complete, prepare_image_ok}

abbrev digest : Str
digest = replicate 64 b'a'

abbrev sums : Str
sums =
    digest
    ++ codes "  ubuntu-24-server-cloudimg-amd64-vmlinuz-generic\n"
    ++ digest
    ++ codes " *ubuntu-24-server-cloudimg-amd64-initrd-generic\n"
    ++ digest
    ++ codes " ubuntu-24-server-cloudimg-amd64.img\n"

abbrev mirror : Images.Host (Unit {0})
mirror = record {
  get = λ url n. (
    ok (record { status = codes "200"; is_success = true; body = ok (7 ∷ []); text = ok sums }),
    n,
  );
  build = ok tt;
  host_arch = Images.x86_64;
  is_macos = false;
  to_lowercase = λ s. s;
  sha256_hex = λ bytes. digest;
  qemu_img_convert = λ from to d. (ok (ok tt), d);
}

abbrev spec : Images.ImageSpec
spec = record { distro = codes "ubuntu"; version = codes "24"; arch = none }

abbrev empty : Images.World (Unit {0})
empty = record {
  net = tt;
  disk = record { files = []; dirs = []; dir_len = λ path. 0; faults = [] };
  checksum_cache = [];
}

abbrev dir : Str
dir = codes "/c/images/ubuntu/24/x86_64"

abbrev prepared : Images.PreparedImage
prepared = record {
  kernel = codes "/c/images/ubuntu/24/x86_64/vmlinuz";
  initramfs = some (codes "/c/images/ubuntu/24/x86_64/initramfs");
  disk = codes "/c/images/ubuntu/24/x86_64/disk.img";
}

prepare_image_ok_example :
    Complete mirror spec
      (Preparing.image_dir mirror spec (codes "/c"))
      prepared
      (Preparing.prepare_image mirror spec (codes "/c") empty).1
unfolding Preparing.prepare_image vm_rs.Disk.create_dir_all vm_rs.Paths.with_extension
    vm_rs.Prelude.Map.remove
prepare_image_ok_example = prepare_image_ok mirror spec (codes "/c") empty prepared refl refl

abbrev asset : Images.ImageAsset
asset = record {
  filename = codes "vmlinuz";
  url = codes "u";
  source_filename = codes "s";
  checksum_url = none;
}

abbrev cached : Images.World (Unit {0})
cached = record {
  net = tt;
  disk = record {
    files = (codes "/c/vmlinuz", 8 ∷ []) ∷ [];
    dirs = [];
    dir_len = λ path. 0;
    faults = [];
  };
  checksum_cache = [];
}

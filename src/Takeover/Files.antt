-- ===== src/Takeover/Files.antt =====
-- ofgwrite.c: the directories of the new root and the files that `umount_rootfs` copies to it.
use ofgwrite.Base.{Bool, List, [], ◌∷◌, ◌++◌}
use ofgwrite.Base.{if◌then◌else◌}
use ofgwrite.Base.Calls.{Call}
use ofgwrite.Base.Text.{Bytes, lit}

abbrev pub sys : Bytes → Call
sys command = Call.system command

-- `cp -arf` of each pair of words.
abbrev pub cp_arf : Bytes → Call
cp_arf args = Call.system (lit "cp -arf " ++ args)

abbrev pub on : {A : Type 0} → Bool → List A → List A
on test items = if test then items else []

abbrev pub new_directories : Bool → Bool → Bytes → List Call
new_directories multilib android rootfs_mount_point =
    Call.chdir (lit "/newroot")
    ∷ Call.mkdir (lit "/newroot/bin")
    ∷ Call.mkdir (lit "/newroot/dev")
    ∷ Call.mkdir (lit "/newroot/etc")
    ∷ Call.mkdir (lit "/newroot/dev/pts")
    ∷ Call.mkdir (lit "/newroot/lib")
    ∷ Call.mkdir (lit "/newroot/media")
    ∷ Call.mkdir (lit "/newroot/oldroot")
    ∷ Call.mkdir (lit "/newroot/oldroot_remount")
    ∷ Call.mkdir (lit "/newroot/proc")
    ∷ Call.mkdir (lit "/newroot/run")
    ∷ Call.mkdir (lit "/newroot/sbin")
    ∷ Call.mkdir (lit "/newroot/sys")
    ∷ Call.mkdir (lit "/newroot/usr")
    ∷ Call.mkdir (lit "/newroot/usr/lib")
    ∷ Call.mkdir (lit "/newroot/usr/lib/autofs")
    ∷ Call.mkdir (lit "/newroot/usr/sbin")
    ∷ Call.mkdir (lit "/newroot/var")
    ∷ Call.mkdir (lit "/newroot/var/volatile")
    ∷ (on multilib (
          Call.mkdir (lit "/newroot/lib64")
          ∷ Call.mkdir (lit "/newroot/usr/lib64")
          ∷ Call.mkdir (lit "/newroot/usr/lib64/autofs")
          ∷ [])
        ++ (on android (Call.mkdir (lit "/newroot/dreamcard") ∷ [])
            ++ (sys (lit "mkdir -p /newroot/" ++ rootfs_mount_point) ∷ [])))

-- "lib64" or "lib"
abbrev pub lib : Bool → Bytes
lib multilib = if multilib then lit "lib64" else lit "lib"

-- `<front>/lib<name> /newroot<front>/lib<back>`: the spaces between the two words are left out.
abbrev pub lib_pair : Bool → Bytes → Bytes → Bytes → Bytes
lib_pair multilib front name back =
    front
    ++ (lit "/"
        ++ (lib multilib
            ++ (name ++ (lit " /newroot" ++ (front ++ (lit "/" ++ (lib multilib ++ back)))))))

abbrev pub binaries : Bool → Bool → List Call
binaries multilib android =
    cp_arf (lit "/bin/busybox* /newroot/bin")
    ∷ cp_arf (lit "/bin/sh* /newroot/bin")
    ∷ cp_arf (lit "/bin/bash* /newroot/bin")
    ∷ cp_arf (lit "/sbin/init* /newroot/sbin")
    ∷ cp_arf (lib_pair multilib [] (lit "/libc*") [])
    ∷ cp_arf (lib_pair multilib [] (lit "/ld*") [])
    ∷ cp_arf (lib_pair multilib [] (lit "/libtinfo*") [])
    ∷ cp_arf (lib_pair multilib [] (lit "/libdl*") [])
    ∷ on android (
        cp_arf (lit "/sbin/blkid* /newroot/sbin")
        ∷ cp_arf (lib_pair multilib [] (lit "/libblkid.*") [])
        ∷ [])

abbrev pub automount_files : Bool → List Call
automount_files multilib =
    cp_arf (lit "/usr/sbin/autom* /newroot/bin")
    ∷ cp_arf (lit "/etc/auto* /newroot/etc")
    ∷ cp_arf (lib_pair multilib [] (lit "/libpthread*") [])
    ∷ cp_arf (lib_pair multilib [] (lit "/libnss*") [])
    ∷ cp_arf (lib_pair multilib [] (lit "/libnsl*") [])
    ∷ cp_arf (lib_pair multilib [] (lit "/libresolv*") [])
    ∷ cp_arf (lib_pair multilib [] (lit "/librt*") [])
    ∷ cp_arf (lib_pair multilib (lit "/usr") (lit "/libtirp*") [])
    ∷ cp_arf (lib_pair multilib (lit "/usr") (lit "/autofs/*") (lit "/autofs"))
    ∷ cp_arf (lit "/etc/nsswitch* /newroot/etc")
    ∷ cp_arf (lit "/etc/resolv* /newroot/etc")
    ∷ []

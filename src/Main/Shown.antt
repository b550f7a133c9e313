-- ===== src/Main/Shown.antt =====
-- ofgwrite.c: the lists of calls of `main` whose answers are not looked at, between the flashing functions.
use ofgwrite.Base.{ℕ, Bool, false, List, [], ◌∷◌, ◌++◌}
use ofgwrite.Base.{if◌then◌else◌}
use ofgwrite.Base.Calls.{Call}
use ofgwrite.Base.Text.{Bytes, lit}
use ofgwrite.Takeover.Files.{sys}

-- The processes that keep the rootfs busy.
abbrev pub kill_calls : List Call
kill_calls =
    sys (lit "killall nmbd")
    ∷ sys (lit "killall smbd")
    ∷ sys (lit "killall rpc.mountd")
    ∷ sys (lit "killall rpc.statd")
    ∷ sys (lit "/etc/init.d/softcam stop")
    ∷ sys (lit "killall CCcam")
    ∷ sys (lit "pkill -9 -f '[Oo][Ss][Cc][Aa][Mm]'")
    ∷ sys (lit "ps w | grep -i oscam | grep -v grep | awk '{print $1}'| xargs kill -9")
    ∷ sys (lit "pkill -9 -f '[Ww][Ii][Cc][Aa][Rr][Dd][Dd]'")
    ∷ sys (lit "ps w | grep -i wicardd | grep -v grep | awk '{print $1}'| xargs kill -9")
    ∷ sys (lit "killall kodi.bin")
    ∷ sys (lit "killall hddtemp")
    ∷ sys (lit "killall transmission-daemon")
    ∷ sys (lit "killall openvpn")
    ∷ sys (lit "/etc/init.d/sabnzbd stop")
    ∷ sys (lit "pkill -9 -f cihelper")
    ∷ sys (lit "pkill -9 -f ciplus_helper")
    ∷ sys (lit "pkill -9 -f ciplushelper")
    ∷ sys (lit "pkill -f vmc.sh")
    ∷ sys (lit "pkill -f DBServer.py")
    ∷ sys (lit "/etc/init.d/autofs stop")
    ∷ []

abbrev pub start_calls : ℕ → Bool → List Call
start_calls steps takes_over =
    Call.open_framebuffer steps
      ∷ Call.show_main_window false
      ∷ Call.set_overall_text (lit "Flashing image")
      ∷ Call.set_step (lit "Killing processes")
      ∷ (if takes_over then kill_calls else [])
    ++ (Call.set_step (lit "Syncing filesystem")
        ∷ Call.sync
        ∷ Call.sleep 1
        ∷ Call.set_step (lit "init 2")
        ∷ [])

-- The end of `main` behind a flashed rootfs.
abbrev pub finish_calls : Bool → Bool → List Call
finish_calls takes_over stop_e2_needed =
    Call.sync
      ∷ Call.sleep 1
      ∷ (if stop_e2_needed
          then Call.umount (lit "/oldroot_remount/")
            ∷ Call.set_step (lit "Successfully flashed! Rebooting in 3 seconds")
            ∷ []
          else Call.umount_detach (lit "/oldroot_remount/")
            ∷ Call.rmdir (lit "/oldroot_remount/")
            ∷ Call.umount_detach (lit "/newroot/")
            ∷ Call.rmdir (lit "/newroot/")
            ∷ Call.set_step (lit "Successfully flashed!")
            ∷ [])
    ++ (Call.sleep 3 ∷ (if takes_over then Call.reboot ∷ [] else [])
        ++ (Call.close_framebuffer ∷ []))

-- `set_error_text1`, `set_error_text2`, and the reboot if Enigma2 was stopped.
abbrev pub failed_calls : Bool → Bytes → Bytes → List Call
failed_calls stopped text1 text2 =
    Call.set_error_text1 text1
      ∷ Call.set_error_text2 text2
      ∷ (if stopped then Call.sleep 60 ∷ Call.reboot ∷ [] else [])
    ++ (Call.sleep 3 ∷ Call.close_framebuffer ∷ [])

abbrev pub rootfs_failed : Bool → List Call
rootfs_failed stopped =
    failed_calls stopped (lit "Error flashing rootfs. System won't boot!")
      (lit "Please flash backup! Rebooting in 60 sec")

abbrev pub kernel_failed : Bool → List Call
kernel_failed stopped =
    failed_calls stopped (lit "Error flashing kernel. System won't boot!")
      (lit "Please flash backup! Starting E2 in 60 sec")

abbrev pub kernel_calls : List Call
kernel_calls =
    Call.open_framebuffer 2
    ∷ Call.show_main_window false
    ∷ Call.set_overall_text (lit "Flashing kernel")
    ∷ []

abbrev pub kernel_only_failed : List Call
kernel_only_failed =
    Call.set_error_text1 (lit "Error flashing kernel. System won't boot!")
    ∷ Call.set_error_text2 (lit "Please flash backup! Go back to E2 in 60 sec")
    ∷ Call.sleep 60
    ∷ Call.close_framebuffer
    ∷ []

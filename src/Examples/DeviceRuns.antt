-- ===== src/Examples/DeviceRuns.antt =====
-- Runs of class LoopDevice of linux/block_device.cpp, and its theorems at concrete inputs.
use usb_restoration_tool.Examples.Data.{driver}
use usb_restoration_tool.Linux.Loop.{configure, prepare_for_formatting, detach}
use usb_restoration_tool.Linux.Loop.{clean, no_loop}
use usb_restoration_tool.Linux.Loop.Tracked.{Configures, configure-Configures, busy_on}
use usb_restoration_tool.Linux.Loop.Sessions.{
  Call, to_configure, to_prepare, perform_all, detach-perform_all,
}
use usb_restoration_tool.Safety.Sectors.{is_valid_device_range, is_supported_sector_size}
use usb_restoration_tool.Prelude.{◌≡◌, refl, none, some, List, [], ◌∷◌}

device_runs : Unit {0}
unfolding configure prepare_for_formatting detach perform_all is_valid_device_range
    is_supported_sector_size
device_runs = tt

-- The first node is busy, so that the second attempt adds one.
second_attempt : (configure 1048576 1048576 512 driver no_loop (clean 0)).device ≡ busy_on 7
unfolding device_runs
second_attempt = refl

past_the_end : (configure 1048576 16000000000 512 driver no_loop (clean 0)).kernel ≡ clean 0
unfolding device_runs
past_the_end = refl

abbrev calls : List Call
calls = to_configure 1048576 1048576 512 driver ∷ to_prepare (some 5) 0 ∷ to_prepare none 0 ∷ []

configure-Configures_example :
    Configures 1048576 1048576 512 driver 0 (configure 1048576 1048576 512 driver no_loop (clean 0))
configure-Configures_example = configure-Configures 1048576 1048576 512 driver 0

detach-perform_all_example :
    let state = perform_all calls no_loop (clean 0) in
    let after = detach (some 5) (some 16) state.0 state.1 in
    (after.device ≡ no_loop) × (after.kernel ≡ clean 0)
detach-perform_all_example = detach-perform_all calls (some 5) (some 16) 0

-- ===== src/Sound/Tests.antt =====
-- The sound functions on concrete answers.
use droidcam_linux_client.Prelude.{
  ℕ, zero, suc, ◌≤◌, ◌≡◌, refl, ap, true, false, List, [], ◌∷◌, length, none, some, arith,
}
use droidcam_linux_client.Prelude.Int.{ℤ, pos, negsuc}
use droidcam_linux_client.Sound.Params.{
  audio_rate, Sizes, HwAnswers, SwAnswers, set_sizes, set_hwparams, set_swparams,
}
use droidcam_linux_client.Sound.Recovery.{Recovery, resume_limit}
use droidcam_linux_client.Sound.Transfer.{
  PcmState, Transfer, CheckAnswers, Answered, snd_transfer_check, snd_transfer_check_total,
}
use droidcam_linux_client.Sound.Find.{
  Card, Search, Searched, try_device, try_devices, try_cards, find_snd_device, find_no_leak,
}

unfoldable copies : ℕ → ℤ → List ℤ
copies zero x = []
copies (suc n) x = x ∷ copies n x

length-copies : (n : ℕ) (x : ℤ) → length (copies n x) ≡ n
unfolding copies
length-copies zero x = refl
length-copies (suc n) x = ap suc (length-copies n x)

-- The device asks to wait, every time.
abbrev busy : Recovery
busy = record { prepare = pos 0; resume = copies 60000 (negsuc 10) }

abbrev at_once : Recovery
at_once = record { prepare = pos 0; resume = [] }

busy-enough : resume_limit ≤ length busy.resume
busy-enough = omega (arith, length-copies 60000 (negsuc 10))

abbrev good_hw : HwAnswers
good_hw = record {
  any = pos 0;
  resample = pos 0;
  access = pos 0;
  format = pos 0;
  channels = pos 0;
  rate_near = pos 0;
  rate = audio_rate;
  buffer_time = pos 0;
  get_buffer = pos 0;
  buffer = 640;
  period_time = pos 0;
  get_period = pos 0;
  period = 320;
  write = pos 0;
}

abbrev no_sizes : Sizes
no_sizes = record { buffer_size = 0; period_size = 0 }

abbrev good_sw : SwAnswers
good_sw = record { current = pos 0; start_threshold = pos 0; avail_min = pos 0; write = pos 0 }

abbrev idle : Transfer
idle = record { first = true; offset = 0; frames = 0; my_areas = 0 }

abbrev answers : PcmState → Recovery → CheckAnswers
answers state r = record {
  state = state;
  on_state = r;
  avail = pos 500;
  on_avail = r;
  start = pos 0;
  wait = pos 0;
  mmap_begin = pos 0;
  mapped = 7;
  mapped_offset = 320;
  mapped_frames = 320;
}

snd_transfer_check_total_example :
    Answered (snd_transfer_check 320 (answers PcmState.suspended busy) idle)
snd_transfer_check_total_example =
    snd_transfer_check_total 320 (answers PcmState.suspended busy) idle busy-enough busy-enough

abbrev mapped_transfer : Transfer
mapped_transfer = record { first = true; offset = 320; frames = 320; my_areas = 7 }

abbrev period : ℕ
period = 320

abbrev loopback : List Card
loopback =
    record { is_loopback = false; devices = [] }
    ∷ record {
      is_loopback = true;
      devices =
          record { opens = false; hw = good_hw; sw = good_sw }
          ∷ record { opens = true; hw = good_hw; sw = good_sw }
          ∷ [];
    }
    ∷ []

abbrev new_search : Search
new_search = record { sizes = no_sizes; handles = 0; name = none }

-- The second device of the second card opens; its other side is shown.
abbrev second_device : Search
second_device = record {
  sizes = record { buffer_size = 640; period_size = 320 };
  handles = 1;
  name = some (1, 1, 1);
}

found_second : find_snd_device loopback new_search ≡ (second_device, true)
unfolding find_snd_device try_cards try_devices try_device set_hwparams set_sizes set_swparams
found_second = refl

find_no_leak_example : Searched 0 (find_snd_device loopback new_search)
find_no_leak_example = find_no_leak loopback new_search

-- ===== src/Database/Slaves.antt =====
-- What `PopulateLoopInfo` makes of the slaves of a device-mapper device.
use system_apex.Base.{String, ◌≡◌, not, [], ◌∷◌, Bool-cases, inl, inr}
use system_apex.Database.{MountedApexData}
use system_apex.Database.Sysfs.{Dirs, is_data_loop_device, populate_two, populate_from}

-- Which of two slaves comes first does not matter, if one of them is a data loop device and the
-- other is not.
pub populate_from-swap :
    (dirs : Dirs) (m : MountedApexData) (a b : String × String)
    → is_data_loop_device dirs a.1 ≡ not (is_data_loop_device dirs b.1)
    → populate_from dirs m (a ∷ b ∷ []) ≡ populate_from dirs m (b ∷ a ∷ [])
unfolding populate_from populate_two
populate_from-swap dirs m a b h = elim (Bool-cases (is_data_loop_device dirs b.1)) [
  | inl data_b ↦ rw (h, data_b)
  | inr other_b ↦ rw (h, other_b)
]

-- ===== src/Control/Tests.antt =====
-- Control messages at concrete inputs, with texts that are their bytes.
use proxmoxwhatsapp.Prelude.{
  ◌≡◌, refl, [], ◌∷◌, ◌++◌, true, none, some, ℤ, pos, negsuc, ok, ◌>>=◌, arith,
}
use proxmoxwhatsapp.Bytes.Fields.{u8, u16}
use proxmoxwhatsapp.Text.{byte_text}
use proxmoxwhatsapp.Control.Types.{type_uhid_create}
use proxmoxwhatsapp.Control.Input.{Position, Pressure, Touch, Scroll}
use proxmoxwhatsapp.Control.Uhid.{UhidCreate, uhid_create_bytes}
use proxmoxwhatsapp.Control.Uhid.Layout.{uhid_create_bytes-layout}
use proxmoxwhatsapp.Control.PushFile.{
  start, FilePushParams, push_file_command, push_file_command_from_data,
}
use proxmoxwhatsapp.Control.PushFile.RoundTrip.{push_file_command-from_data}

abbrev position : Position
position = record { x = pos 3; y = pos 4; width = pos 1080; height = pos 1920 }

-- Pressures in 65535ths.
abbrev fixed_pressure : Pressure
fixed_pressure = record {
  Float = ℤ;
  is_finite = λ p. true;
  zero_one_clamp = λ p. p;
  zero = pos 0;
  scaled = λ p. p;
}

abbrev touch : Touch ℤ
touch = record {
  action = pos 0;
  pointer_id = pos 1;
  position = position;
  pressure = pos 65535;
  action_button = pos 1;
  buttons = pos 1;
}

abbrev scroll : Scroll
scroll = record { position = position; h_scroll = pos 0; v_scroll = negsuc 0; buttons = pos 0 }

abbrev mouse : UhidCreate byte_text
mouse = record {
  id = pos 2;
  vendor_id = pos 0;
  product_id = pos 0;
  name = 109 ∷ [];
  descriptor = 5 ∷ (1 ∷ []);
}

uhid_create_bytes-layout_example :
    uhid_create_bytes byte_text mouse
    ≡ ok (
        u8 type_uhid_create
        ++ u16 (pos 2)
        ++ u16 (pos 0)
        ++ u16 (pos 0)
        ++ u8 (pos 1)
        ++ (109 ∷ [])
        ++ u16 (pos 2)
        ++ (5 ∷ (1 ∷ [])))
uhid_create_bytes-layout_example = uhid_create_bytes-layout byte_text mouse

abbrev first_command : FilePushParams byte_text
first_command = record {
  id = pos 5;
  state = start;
  chunk = none;
  file_name = some (47 ∷ (97 ∷ []));
  file_size = some (pos 3);
}

push_file_command-from_data_example :
    (push_file_command byte_text first_command >>= push_file_command_from_data byte_text)
    ≡ ok (record {
      id = pos 5;
      state = pos 1;
      chunk = none;
      file_size = some 3;
      file_name = some (47 ∷ (97 ∷ []));
    })
push_file_command-from_data_example =
    push_file_command-from_data byte_text first_command (omega arith)
      (omega arith, omega arith, refl)

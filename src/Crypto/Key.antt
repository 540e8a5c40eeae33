-- ===== src/Crypto/Key.antt =====
-- TEE_GenerateKey, TEE_AllocateTransientObject, TEE_InitRefAttribute, TEE_InitValueAttribute and
-- TEE_FreeTransientObject of api/tee-internal-api-cryptlib.c.
use ta_ref.Prelude.{ℕ, ◌*◌, Bool, not, ◌||◌, Option, none, some, ◌==◌, ltb, if◌then◌else◌}
use ta_ref.Text.{Str}
use ta_ref.Crypto.{
  Library, Object, zeros, has_flag, set_flag, success, error_bad_parameters, error_out_of_memory,
  type_aes, type_ecdsa_keypair, type_ecdh_keypair, handle_flag_key_set, handle_flag_persistent,
}

-- TEE_GenerateKey on a handle that is not NULL
unfoldable pub generate : Library → Str → Object → ℕ × Object
unfolding has_flag set_flag zeros
generate lib seed object =
    let (public_key, private_key) = lib.ed25519_create_keypair seed in
    if has_flag handle_flag_key_set object.flags then (error_bad_parameters, object) else (
      success,
      record object {
        public_key = public_key;
        private_key = if object.type == type_aes then zeros 64 else private_key;
        flags = set_flag handle_flag_key_set object.flags;
      },
    )

-- TEE_GenerateKey, with the seed that TEE_GenerateRandom gives; keySize and params are not read
unfoldable pub generate_key : Library → Str → Option Object → ℕ × Option Object
unfolding generate
generate_key lib seed none = (error_bad_parameters, none)
generate_key lib seed (some object) =
    let (code, object') = generate lib seed object in (code, some object')

-- memset(handle, 0, sizeof(*handle)), and the type
unfoldable pub new_object : Library → ℕ → Option Object → ℕ × Option Object
unfolding zeros
new_object lib object_type none = (error_out_of_memory, none)
new_object lib object_type (some memory) = (
  success,
  some (record {
    type = object_type;
    flags = 0;
    desc = 0;
    persist_ctx = zeros lib.aes_ctx_size;
    persist_iv = zeros 16;
    public_key = zeros 32;
    private_key = zeros 64;
  }),
)

-- TEE_AllocateTransientObject, with what malloc gives, where object is NULL or not
unfoldable pub allocate_transient_object :
    Library → Option Object → ℕ → ℕ → Bool → ℕ × Option Object
unfolding new_object
allocate_transient_object lib malloc object_type max_key_size object =
    if not (
        object_type == type_ecdh_keypair
        || (object_type == type_ecdsa_keypair || object_type == type_aes))
      || (ltb (64 * 8) max_key_size || not object)
    then (error_bad_parameters, none)
    else new_object lib object_type malloc

-- What TEE_FreeTransientObject does to a handle.
pub data Release : Type 0 where
  ignored : Release
  panicked : Release
  released : Release

unfoldable pub free_transient_object : Option Object → Release
unfolding has_flag
free_transient_object none = ignored
free_transient_object (some object) =
    if has_flag handle_flag_persistent object.flags then panicked else released

-- TEE_Attribute
pub data Content : Type 0 where
  ref : Option Str → ℕ → Content
  value : ℕ → ℕ → Content

pub record Attribute : Type 0 where
  pub attribute_id : ℕ
  pub content : Content

-- TEE_InitRefAttribute; none is TEE_Panic
unfoldable pub init_ref_attribute : Option Attribute → ℕ → Option Str → ℕ → Option Attribute
init_ref_attribute none attribute_id buffer length = none
init_ref_attribute (some attr) attribute_id buffer length =
    some (record { attribute_id = attribute_id; content = ref buffer length })

-- TEE_InitValueAttribute; none is TEE_Panic
unfoldable pub init_value_attribute : Option Attribute → ℕ → ℕ → ℕ → Option Attribute
init_value_attribute none attribute_id a b = none
init_value_attribute (some attr) attribute_id a b =
    some (record { attribute_id = attribute_id; content = value a b })

-- ===== src/Nav/Readme/Chapters.antt =====
-- NAVTREE and NAVTREEINDEX of docs/ta-ref_readme_html/navtreedata.js, one definition for each chapter.
use mathlib.Core.List.{List, [], ◌∷◌}
use ta_ref.Text.{Str, codes}
use ta_ref.Nav.Tree.{Node, Nodes, cons, nil}
use ta_ref.Nav.Entry.{leaf, branch}

unfoldable pub overview_of_trusted_application : Node
overview_of_trusted_application =
    branch "Overview of Trusted Application Reference (TA-Ref)" "index.html" (
      (branch "Features of TA-Ref" "index.html#autotoc_md1"
        ((leaf "Assumption of hardware features of TA-Ref on TEE" "index.html#autotoc_md2") ∷ []))
      ∷ (branch "Components of TA-Ref" "index.html#autotoc_md3" (
          (leaf "TA-Ref Components on Keystone" "index.html#autotoc_md4")
          ∷ (leaf "TA-Ref Components on OP-TEE" "index.html#autotoc_md5")
          ∷ (leaf "TA-Ref Components on SGX" "index.html#autotoc_md6")
          ∷ []))
      ∷ (branch "What we did on RISC-V" "index.html#autotoc_md7" (
          (leaf "Challenges faced during Implementation" "index.html#autotoc_md8")
          ∷ (leaf "Selected GP TEE Internal API's for testing" "index.html#autotoc_md9")
          ∷ []))
      ∷ (leaf "Dependency of category" "index.html#autotoc_md10")
      ∷ [])

unfoldable pub api_comparison_with_full : Node
api_comparison_with_full =
    branch "API comparison with full set of GP API" "a00053.html"
      ((leaf "GP API" "a00053.html#autotoc_md12") ∷ [])

unfoldable pub how_to_run_sample : Node
how_to_run_sample = branch "How to run sample TA programs on TA-Ref" "a00054.html" (
    (leaf "Run samples for Keystone" "a00054.html#autotoc_md14")
    ∷ (leaf "Run samples for OP-TEE" "a00054.html#autotoc_md15")
    ∷ (leaf "Run samples for Intel SGX" "a00054.html#autotoc_md16")
    ∷ [])

unfoldable pub how_to_write_your : Node
how_to_write_your = branch "How to write your first 'Hello World' TA Program" "a00055.html" (
    (leaf "Writing 'Hello World' TA for Keystone" "a00055.html#autotoc_md18")
    ∷ (leaf "Writing 'Hello World' TA for OP-TEE" "a00055.html#autotoc_md19")
    ∷ (leaf "Writing 'Hello World' TA for Intel SGX" "a00055.html#autotoc_md20")
    ∷ [])

unfoldable pub tutorials_of_using_gp : Node
tutorials_of_using_gp = branch "Tutorials of using GP API's in TEE" "a00056.html" (
    (leaf "Time Functions" "a00056.html#autotoc_md22")
    ∷ (leaf "Random Functions" "a00056.html#autotoc_md23")
    ∷ (leaf "Hash Functions" "a00056.html#autotoc_md24")
    ∷ (leaf "Symmetric Crypto AES-GCM Functions" "a00056.html#autotoc_md25")
    ∷ (leaf "Asymmetric Crypto Functions" "a00056.html#autotoc_md26")
    ∷ (leaf "Open, Read, Write, Close On Secure Storage" "a00056.html#autotoc_md27")
    ∷ (leaf "API Error Codes and its values" "a00056.html#autotoc_md28")
    ∷ [])

unfoldable pub preparation_and_building_ta : Node
preparation_and_building_ta = branch "Preparation and building TA-Ref with docker" "a00057.html" (
    (branch "Preparation" "a00057.html#autotoc_md30" (
      (leaf "Installing Docker" "a00057.html#autotoc_md31")
      ∷ (leaf "Executing Docker without sudo" "a00057.html#autotoc_md32")
      ∷ (leaf "Create a docker network tamproto" "a00057.html#autotoc_md33")
      ∷ []))
    ∷ (leaf "Docker images details" "a00057.html#autotoc_md34")
    ∷ (branch "Building TA-Ref with Docker" "a00057.html#autotoc_md35" (
        (leaf "Building TA-Ref for Keystone with docker" "a00057.html#autotoc_md36")
        ∷ (leaf "Building TA-Ref for OP-TEE with docker" "a00057.html#autotoc_md37")
        ∷ (leaf "Building TA-Ref for Intel SGX with docker" "a00057.html#autotoc_md38")
        ∷ []))
    ∷ [])

unfoldable pub preparation_before_building_ta : Node
preparation_before_building_ta =
    branch "Preparation before building TA-Ref without Docker" "a00058.html" (
      (branch "Keystone(RISC-V Unleased)" "a00058.html#autotoc_md40" (
        (leaf "Required Packages" "a00058.html#autotoc_md41")
        ∷ (leaf "Download RISC-V toolchain and Keystone SDK" "a00058.html#autotoc_md42")
        ∷ (leaf "Run Keystone examples" "a00058.html#autotoc_md43")
        ∷ []))
      ∷ (branch "OP-TEE (ARM64 Raspberry Pi 3 Model B)" "a00058.html#autotoc_md44" (
          (leaf "Required Packages" "a00058.html#autotoc_md45")
          ∷ (leaf "Download and build OP-TEE Toolchains 3.10.0" "a00058.html#autotoc_md46")
          ∷ (leaf "Download OP-TEE 3.10.0" "a00058.html#autotoc_md47")
          ∷ (leaf "Build OP-TEE 3.10.0" "a00058.html#autotoc_md48")
          ∷ (branch "Run OP-TEE Examples" "a00058.html#autotoc_md49" (
              (leaf "Launching QEMU Console" "a00058.html#autotoc_md50")
              ∷ (leaf "Run hello world example" "a00058.html#autotoc_md51")
              ∷ []))
          ∷ []))
      ∷ (branch "SGX (Intel NUC)" "a00058.html#autotoc_md52" (
          (branch "System Requirements" "a00058.html#autotoc_md53" (
            (leaf "List of machines which are confirmed to work" "a00058.html#autotoc_md54")
            ∷ (leaf "BIOS Versions which are failed or scucceeded in IAS Test"
                "a00058.html#autotoc_md55")
            ∷ (leaf "BIOS Settings" "a00058.html#autotoc_md56")
            ∷ []))
          ∷ (leaf "Required Packages" "a00058.html#autotoc_md57")
          ∷ (branch "Build SGX" "a00058.html#autotoc_md58" (
              (leaf "Build and install linux-sgx" "a00058.html#autotoc_md59")
              ∷ (leaf "Build and Install SGX Driver" "a00058.html#autotoc_md60")
              ∷ []))
          ∷ (branch "Run sgx-ra-sample" "a00058.html#autotoc_md61" (
              (leaf "Build sgx-ra-sample" "a00058.html#autotoc_md62")
              ∷ (leaf "Prepare for IAS Test" "a00058.html#autotoc_md63")
              ∷ (leaf "Run IAS Test" "a00058.html#autotoc_md64")
              ∷ (leaf "Possible wget Error" "a00058.html#autotoc_md65")
              ∷ (leaf "BIOS Updating" "a00058.html#autotoc_md66")
              ∷ (leaf "Run LocalAttestation" "a00058.html#autotoc_md67")
              ∷ []))
          ∷ []))
      ∷ (branch "Doxygen" "a00058.html#autotoc_md68" (
          (leaf "Required Packages" "a00058.html#autotoc_md69")
          ∷ (leaf "Build and Install Doxygen" "a00058.html#autotoc_md70")
          ∷ []))
      ∷ (branch "Customizing MbedTLS Configuration file" "a00058.html#autotoc_md71" (
          (leaf "What can be customized?" "a00058.html#autotoc_md72")
          ∷ (branch "mbedtls configuration file (config.h)" "a00058.html#autotoc_md73" (
              (leaf "Optee mbetls config file" "a00058.html#autotoc_md74")
              ∷ (leaf "TA-Ref mbetls config file" "a00058.html#autotoc_md75")
              ∷ (leaf "TEEP-Device mbetls config file" "a00058.html#autotoc_md76")
              ∷ []))
          ∷ (leaf "Supplement Investigation information" "a00058.html#autotoc_md77")
          ∷ []))
      ∷ [])

unfoldable pub building_ta_ref_without : Node
building_ta_ref_without = branch "Building TA-Ref without Docker" "a00059.html" (
    (branch "TA-Ref with Keystone" "a00059.html#autotoc_md79" (
      (leaf "Cloning and building dependent sources" "a00059.html#autotoc_md80")
      ∷ (leaf "Clone the ta-ref source" "a00059.html#autotoc_md81")
      ∷ (leaf "Build the ta-ref source for test_hello and test_gp" "a00059.html#autotoc_md82")
      ∷ []))
    ∷ (branch "TA-Ref with OP-TEE" "a00059.html#autotoc_md83" (
        (leaf "Clone the ta-ref source" "a00059.html#autotoc_md84")
        ∷ (leaf "Build the ta-ref source for test_hello and test_gp" "a00059.html#autotoc_md85")
        ∷ []))
    ∷ (branch "TA-Ref with SGX" "a00059.html#autotoc_md86" (
        (leaf "Clone the ta-ref source" "a00059.html#autotoc_md87")
        ∷ (leaf "Build the ta-ref source for test_hello and test_gp" "a00059.html#autotoc_md88")
        ∷ (branch "Check TA-Ref by running test_gp, test_hello, simulation mode on any pc"
            "a00059.html#autotoc_md89"
            ((leaf "test_hello" "a00059.html#autotoc_md90")
              ∷ (leaf "test_gp" "a00059.html#autotoc_md91")
              ∷ []))
        ∷ []))
    ∷ (branch "Generating ta-ref.pdf with Doxygen" "a00059.html#autotoc_md92"
        ((leaf "Cloning source and building docs" "a00059.html#autotoc_md93") ∷ []))
    ∷ [])

unfoldable pub running_on_development_boards : Node
running_on_development_boards = branch "Running on Development Boards" "a00060.html" (
    (branch "Keystone, Unleased" "a00060.html#autotoc_md95" (
      (branch "Preparation of rootfs on SD Card" "a00060.html#autotoc_md96" (
        (leaf "Create SD-card partition manually" "a00060.html#autotoc_md97")
        ∷ (leaf "Write boot and rootfs files into SD-card" "a00060.html#autotoc_md98")
        ∷ []))
      ∷ (leaf "Copying binaries of test_hello and test_gp" "a00060.html#autotoc_md99")
      ∷ (leaf "Check test_hello and test_gp on Unleased" "a00060.html#autotoc_md100")
      ∷ []))
    ∷ (branch "OP-TEE, Raspberry PI 3" "a00060.html#autotoc_md101" (
        (leaf "Preparation of rootfs on SD Card" "a00060.html#autotoc_md102")
        ∷ (leaf "Copying binaries of test_hello and test_gp to rootfs partition"
            "a00060.html#autotoc_md103")
        ∷ (leaf "Check test_hello and test_gp" "a00060.html#autotoc_md104")
        ∷ []))
    ∷ (branch "SGX, NUC" "a00060.html#autotoc_md105" (
        (leaf "Copying binaries of test_hello and test_gp to NUC machine"
          "a00060.html#autotoc_md106")
        ∷ (leaf "Check test_hello and test_gp" "a00060.html#autotoc_md107")
        ∷ []))
    ∷ [])

-- The single entry of NAVTREE.
unfoldable pub nav_tree : Nodes
unfolding overview_of_trusted_application api_comparison_with_full how_to_run_sample
    how_to_write_your tutorials_of_using_gp preparation_and_building_ta
    preparation_before_building_ta building_ta_ref_without running_on_development_boards
nav_tree =
    cons
      (branch "TA-REF" "index.html" (
        overview_of_trusted_application ∷ api_comparison_with_full ∷ how_to_run_sample
        ∷ how_to_write_your ∷ tutorials_of_using_gp ∷ preparation_and_building_ta
        ∷ preparation_before_building_ta ∷ building_ta_ref_without ∷ running_on_development_boards
        ∷ []))
      nil

unfoldable pub nav_tree_index : List Str
nav_tree_index = codes "a00053.html" ∷ []

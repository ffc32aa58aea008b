-- ===== src/DocSearch/Index/Defines.antt =====
-- The search data of the pages of the macros (Doc/html/search/defines_*.js).
use upciedev.Prelude.{List, [], ◌∷◌}
use upciedev.DocSearch.Results.{SearchEntry}
use upciedev.DocSearch.Index.{single}

abbrev pub defines_61 : List SearchEntry
defines_61 =
    single "ascii_5fboard_5fmagic_5fnum" "ASCII_BOARD_MAGIC_NUM"
      "../pciedev__ufn_8h.html#aca51b3d5775dca72eb36777c14d34fd4" "pciedev_ufn.h"
    ∷ single "ascii_5fboard_5fmagic_5fnum_5fl" "ASCII_BOARD_MAGIC_NUM_L"
        "../pciedev__ufn_8h.html#a6d893ebfc112547b07f019e4ea40238e" "pciedev_ufn.h"
    ∷ single "ascii_5fproj_5fmagic_5fnum" "ASCII_PROJ_MAGIC_NUM"
        "../pciedev__ufn_8h.html#a3f6a99cce20fba28cfba56e8c30355dc" "pciedev_ufn.h"
    ∷ []

abbrev pub defines_62 : List SearchEntry
defines_62 =
    single "bar0" "BAR0" "../pciedev__io_8h.html#a1fce441aaa962f572d643140658a6e4c" "pciedev_io.h"
    ∷ single "bar1" "BAR1" "../pciedev__io_8h.html#a4ceeca7cc9bab8b697f8a49f79037010" "pciedev_io.h"
    ∷ single "bar2" "BAR2" "../pciedev__io_8h.html#a44fa2ca32ff22e5eb7fa28ef39e50780" "pciedev_io.h"
    ∷ single "bar3" "BAR3" "../pciedev__io_8h.html#a7f201c103377c8f3c84f10576e63e7af" "pciedev_io.h"
    ∷ single "bar4" "BAR4" "../pciedev__io_8h.html#ace7f77e5691514de1c5a1f8c16d3025c" "pciedev_io.h"
    ∷ single "bar5" "BAR5" "../pciedev__io_8h.html#a7473bbc92af15efd739f5c06409d8bc4" "pciedev_io.h"
    ∷ []

abbrev pub defines_64 : List SearchEntry
defines_64 =
    single "dma_5fdata_5foffset" "DMA_DATA_OFFSET"
      "../pciedev__io_8h.html#aa293c11b73c1e8a741c9060d8ef1c021" "pciedev_io.h"
    ∷ single "dma_5fdata_5foffset_5fbyte" "DMA_DATA_OFFSET_BYTE"
        "../pciedev__io_8h.html#a9fa9f95b2d69f5b07cb9cb30b1ba9afe" "pciedev_io.h"
    ∷ []

abbrev pub defines_69 : List SearchEntry
defines_69 =
    single "ioctrl_5fall" "IOCTRL_ALL" "../pciedev__io_8h.html#a1dc1215c881918ae78af0f20713b05a5"
      "pciedev_io.h"
    ∷ single "ioctrl_5fr" "IOCTRL_R" "../pciedev__io_8h.html#a314ade3cefcb60fbf18f80c8eba4b54c"
        "pciedev_io.h"
    ∷ single "ioctrl_5fw" "IOCTRL_W" "../pciedev__io_8h.html#a35ef23c334a9de2bfddddf640577d972"
        "pciedev_io.h"
    ∷ []

abbrev pub defines_70 : List SearchEntry
defines_70 =
    single "pcied_5ffpos" "PCIED_FPOS" "../pciedev__ufn_8h.html#af5bd2d5b0d466fc7c6b89e85054df1f9"
      "pciedev_ufn.h"
    ∷ single "pciedev_5fdma_5fmin_5fsyze" "PCIEDEV_DMA_MIN_SYZE"
        "../pciedev__io_8h.html#a6df179f336e65ab5b64801ca0f9818d2" "pciedev_io.h"
    ∷ single "pciedev_5fdma_5fsyze" "PCIEDEV_DMA_SYZE"
        "../pciedev__io_8h.html#acf195079e65702428087887dd5649ffc" "pciedev_io.h"
    ∷ single "pciedev_5fdriver_5fversion" "PCIEDEV_DRIVER_VERSION"
        "../pciedev__io_8h.html#a2140cdb4612e1aeb483572affbeb9f20" "pciedev_io.h"
    ∷ single "pciedev_5ffirmware_5fversion" "PCIEDEV_FIRMWARE_VERSION"
        "../pciedev__io_8h.html#a4209c10c61a2ea367ce7ae1ebaf03ed0" "pciedev_io.h"
    ∷ single "pciedev_5fget_5fdma_5ftime" "PCIEDEV_GET_DMA_TIME"
        "../pciedev__io_8h.html#a2aa7940c0614fa9c0c1031e028db6fc0" "pciedev_io.h"
    ∷ single "pciedev_5fget_5fstatus" "PCIEDEV_GET_STATUS"
        "../pciedev__io_8h.html#a1192aa141968a35a6df1c3fed3646f14" "pciedev_io.h"
    ∷ single "pciedev_5fphysical_5fslot" "PCIEDEV_PHYSICAL_SLOT"
        "../pciedev__io_8h.html#a07aad6c0ab1a1d0386c51904d1d4e481" "pciedev_io.h"
    ∷ single "pciedev_5fread_5fdma" "PCIEDEV_READ_DMA"
        "../pciedev__io_8h.html#a0ce58a436c9a78d135964a5b62c0dfd5" "pciedev_io.h"
    ∷ single "pciedev_5fscratch_5freg" "PCIEDEV_SCRATCH_REG"
        "../pciedev__io_8h.html#aee76447bc6c66911e0012e7cb33b34ac" "pciedev_io.h"
    ∷ single "pciedev_5fset_5firq" "PCIEDEV_SET_IRQ"
        "../pciedev__io_8h.html#affbc21ad44dcfae23526e8fb7b77b16c" "pciedev_io.h"
    ∷ single "pciedev_5fwrite_5fdma" "PCIEDEV_WRITE_DMA"
        "../pciedev__io_8h.html#a6892d9a42c85abdf25bf5998359ba61b" "pciedev_io.h"
    ∷ single "pciedoocs_5fioc" "PCIEDOOCS_IOC"
        "../pciedev__io_8h.html#ae4a61739d33de556c654b0b2d3458549" "pciedev_io.h"
    ∷ single "pciedoocs_5fioc_5fdma_5fmaxnr" "PCIEDOOCS_IOC_DMA_MAXNR"
        "../pciedev__io_8h.html#a80b72af01345fd80ba7df7085fe5271b" "pciedev_io.h"
    ∷ single "pciedoocs_5fioc_5fdma_5fminnr" "PCIEDOOCS_IOC_DMA_MINNR"
        "../pciedev__io_8h.html#a3550d7327b976a7882121d4fb3e9e518" "pciedev_io.h"
    ∷ single "pciedoocs_5fioc_5fmaxnr" "PCIEDOOCS_IOC_MAXNR"
        "../pciedev__io_8h.html#a2adc22a34dd80aeb9090741dad0bf049" "pciedev_io.h"
    ∷ single "pciedoocs_5fioc_5fminnr" "PCIEDOOCS_IOC_MINNR"
        "../pciedev__io_8h.html#aeda3a2a8e04dea1db5bcf4d4cec12688" "pciedev_io.h"
    ∷ []

abbrev pub defines_72 : List SearchEntry
defines_72 =
    single "rw_5fd16" "RW_D16" "../pciedev__io_8h.html#abc50dc315c651c129149ea8f543e23ea"
      "pciedev_io.h"
    ∷ single "rw_5fd32" "RW_D32" "../pciedev__io_8h.html#a95cac24787550ae06eb2cd33b0d92194"
        "pciedev_io.h"
    ∷ single "rw_5fd8" "RW_D8" "../pciedev__io_8h.html#a3494a27985916bbb418d9c6557985c15"
        "pciedev_io.h"
    ∷ single "rw_5fdma" "RW_DMA" "../pciedev__io_8h.html#a3afe2693cdc01fee9aa769f889e9f690"
        "pciedev_io.h"
    ∷ single "rw_5finfo" "RW_INFO" "../pciedev__io_8h.html#a8ee8c3c02591a6a47113a0e59b88936a"
        "pciedev_io.h"
    ∷ []

abbrev pub defines_77 : List SearchEntry
defines_77 =
    single "word_5fboard_5fdate" "WORD_BOARD_DATE"
      "../pciedev__ufn_8h.html#a6fc5de9f35daa6a43b6ecf40b0fbdc87" "pciedev_ufn.h"
    ∷ single "word_5fboard_5fhw_5fversion" "WORD_BOARD_HW_VERSION"
        "../pciedev__ufn_8h.html#aed280da0791db3ba65e788e162368762" "pciedev_ufn.h"
    ∷ single "word_5fboard_5fid" "WORD_BOARD_ID"
        "../pciedev__ufn_8h.html#af973f22d2c9b14bc7ecaedb722240bbc" "pciedev_ufn.h"
    ∷ single "word_5fboard_5fmagic_5fnum" "WORD_BOARD_MAGIC_NUM"
        "../pciedev__ufn_8h.html#a65dc7126a642247f408a9b05d22de86c" "pciedev_ufn.h"
    ∷ single "word_5fboard_5freset" "WORD_BOARD_RESET"
        "../pciedev__ufn_8h.html#ae7163ed970470fb18075a06a3ff145be" "pciedev_ufn.h"
    ∷ single "word_5fboard_5fto_5fproj" "WORD_BOARD_TO_PROJ"
        "../pciedev__ufn_8h.html#a26e1013d278b8bb19337073a093a013b" "pciedev_ufn.h"
    ∷ single "word_5fboard_5fversion" "WORD_BOARD_VERSION"
        "../pciedev__ufn_8h.html#ad9f4f941a44446fae6331251868a4071" "pciedev_ufn.h"
    ∷ single "word_5fproj_5fdate" "WORD_PROJ_DATE"
        "../pciedev__ufn_8h.html#a00ac381d8b99a4b466be5be5e18dcd0b" "pciedev_ufn.h"
    ∷ single "word_5fproj_5fid" "WORD_PROJ_ID"
        "../pciedev__ufn_8h.html#a85a66859ac00fbbc3d584d5f27774284" "pciedev_ufn.h"
    ∷ single "word_5fproj_5firq_5fclr_5fflagse" "WORD_PROJ_IRQ_CLR_FLAGSE"
        "../pciedev__ufn_8h.html#a7858e1aa41d7fb2b42a89b4ceb614c4f" "pciedev_ufn.h"
    ∷ single "word_5fproj_5firq_5fenable" "WORD_PROJ_IRQ_ENABLE"
        "../pciedev__ufn_8h.html#aeefda069e3e7efe0cdb8501758c2f74d" "pciedev_ufn.h"
    ∷ single "word_5fproj_5firq_5fflags" "WORD_PROJ_IRQ_FLAGS"
        "../pciedev__ufn_8h.html#af6cc20b4fa5e8ad19108d8dccb28c002" "pciedev_ufn.h"
    ∷ single "word_5fproj_5firq_5fmask" "WORD_PROJ_IRQ_MASK"
        "../pciedev__ufn_8h.html#a381bd39443d57c9e512e9a9777b47f08" "pciedev_ufn.h"
    ∷ single "word_5fproj_5fmagic_5fnum" "WORD_PROJ_MAGIC_NUM"
        "../pciedev__ufn_8h.html#a0d2e2e3847dcb8f5ec882ce96ee0b5cf" "pciedev_ufn.h"
    ∷ single "word_5fproj_5fnext" "WORD_PROJ_NEXT"
        "../pciedev__ufn_8h.html#aa1761624d108ae662fe032ad67a1d45e" "pciedev_ufn.h"
    ∷ single "word_5fproj_5freserved" "WORD_PROJ_RESERVED"
        "../pciedev__ufn_8h.html#a78ffd9d43448bd1c27cc9fe25dd888cc" "pciedev_ufn.h"
    ∷ single "word_5fproj_5freset" "WORD_PROJ_RESET"
        "../pciedev__ufn_8h.html#a3755c7798e6a6212f86e2c411ee08980" "pciedev_ufn.h"
    ∷ single "word_5fproj_5fversion" "WORD_PROJ_VERSION"
        "../pciedev__ufn_8h.html#aa99330b8108c91906503ed83bf7f5362" "pciedev_ufn.h"
    ∷ []

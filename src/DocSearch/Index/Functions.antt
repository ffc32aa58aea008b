-- ===== src/DocSearch/Index/Functions.antt =====
-- The search data of the pages of the functions (Doc/html/search/functions_*.js).
use upciedev.Prelude.{List, [], ◌∷◌}
use upciedev.DocSearch.Results.{SearchEntry}
use upciedev.DocSearch.Index.{single, several, target}

abbrev pub functions_65 : List SearchEntry
functions_65 =
    several "export_5fsymbol" "EXPORT_SYMBOL" (
      target "../pciedev__ioctl__exp_8c.html#a889e49a098c44667f34ee09eb94f3c6a"
        "EXPORT_SYMBOL(pciedev_ioctl_exp):&#160;pciedev_ioctl_exp.c"
      ∷ target "../pciedev__probe__exp_8c.html#abc9bdcb88daa33ee8ae058eeaa2251c8"
          "EXPORT_SYMBOL(pciedev_probe_exp):&#160;pciedev_probe_exp.c"
      ∷ target "../pciedev__remove__exp_8c.html#a8487f59e9ab9587fd1cf0725727275aa"
          "EXPORT_SYMBOL(pciedev_remove_exp):&#160;pciedev_remove_exp.c"
      ∷ target "../pciedev__rw__exp_8c.html#af50d888daed4367a10b43b71a5c74eb0"
          "EXPORT_SYMBOL(pciedev_read_exp):&#160;pciedev_rw_exp.c"
      ∷ target "../pciedev__rw__exp_8c.html#a17a1c6f35a7ed697a490a1ca66b2c29b"
          "EXPORT_SYMBOL(pciedev_write_exp):&#160;pciedev_rw_exp.c"
      ∷ target "../pciedev__ufn_8c.html#add6b7ba455c4805935a5a9bace119129"
          "EXPORT_SYMBOL(upciedev_init_module_exp):&#160;pciedev_ufn.c"
      ∷ target "../pciedev__ufn_8c.html#a7ec45425c1b2e74af4d398ed7f9212de"
          "EXPORT_SYMBOL(upciedev_cleanup_module_exp):&#160;pciedev_ufn.c"
      ∷ target "../pciedev__ufn_8c.html#ac844a1d72164dc18da863fd2ebb3a1af"
          "EXPORT_SYMBOL(pciedev_open_exp):&#160;pciedev_ufn.c"
      ∷ target "../pciedev__ufn_8c.html#a61d2e6b8cc11ea6d68aa89127aada355"
          "EXPORT_SYMBOL(pciedev_release_exp):&#160;pciedev_ufn.c"
      ∷ target "../pciedev__ufn_8c.html#ad5a165b96b96af52cf601887ea253b2f"
          "EXPORT_SYMBOL(pciedev_set_drvdata):&#160;pciedev_ufn.c"
      ∷ target "../pciedev__ufn_8c.html#a0e1e74f108738755b0c742ac71907fd4"
          "EXPORT_SYMBOL(pciedev_get_drvdata):&#160;pciedev_ufn.c"
      ∷ target "../pciedev__ufn_8c.html#a4e915dfd29e270f043c0566caa9a6087"
          "EXPORT_SYMBOL(pciedev_get_brdnum):&#160;pciedev_ufn.c"
      ∷ target "../pciedev__ufn_8c.html#a4fb250f74f1a0732a2c0064cab95ca1a"
          "EXPORT_SYMBOL(pciedev_get_pciedata):&#160;pciedev_ufn.c"
      ∷ target "../pciedev__ufn_8c.html#a906761c56b3624e88c3410a01ae4f7ce"
          "EXPORT_SYMBOL(pciedev_get_baddress):&#160;pciedev_ufn.c"
      ∷ target "../pciedev__ufn_8c.html#ae155e7f4908c28fd5df9d6c8375f877d"
          "EXPORT_SYMBOL(pciedev_setup_interrupt):&#160;pciedev_ufn.c"
      ∷ target "../pciedev__ufn_8c.html#a43e78acb59528339d96afabcad70ac4b"
          "EXPORT_SYMBOL(pciedev_get_brdinfo):&#160;pciedev_ufn.c"
      ∷ target "../pciedev__ufn_8c.html#a99061ad1906f6eb5c82fefc424cc0b8f"
          "EXPORT_SYMBOL(pciedev_fill_prj_info):&#160;pciedev_ufn.c"
      ∷ target "../pciedev__ufn_8c.html#a032f20f49be6687932b66383b4a8907d"
          "EXPORT_SYMBOL(pciedev_get_prjinfo):&#160;pciedev_ufn.c"
      ∷ target "../pciedev__ufn_8c.html#a2acb177d65187ee20660834da0d07380"
          "EXPORT_SYMBOL(pciedev_procinfo):&#160;pciedev_ufn.c"
      ∷ [])
    ∷ []

abbrev pub functions_6d : List SearchEntry
functions_6d =
    single "module_5fauthor" "MODULE_AUTHOR"
      "../upciedev__drv_8c.html#aeb38205dd76d7ef98c268faa49b66a02" "upciedev_drv.c"
    ∷ single "module_5fdescription" "MODULE_DESCRIPTION"
        "../upciedev__drv_8c.html#a04135c0cdd256a3304e0ece7f02d3e3e" "upciedev_drv.c"
    ∷ single "module_5fexit" "module_exit"
        "../upciedev__drv_8c.html#a81db766d6c760fb089254b52ca3e5b1b" "upciedev_drv.c"
    ∷ single "module_5finit" "module_init"
        "../upciedev__drv_8c.html#a1529276f8eb03153ef29fca48b388169" "upciedev_drv.c"
    ∷ single "module_5flicense" "MODULE_LICENSE"
        "../upciedev__drv_8c.html#a5c95e2cd11cba226f5f3513060a8928e" "upciedev_drv.c"
    ∷ single "module_5fversion" "MODULE_VERSION"
        "../upciedev__drv_8c.html#aaf1fcc58f41ef923017c9d1bb319686d" "upciedev_drv.c"
    ∷ []

abbrev pub functions_70 : List SearchEntry
functions_70 =
    several "pciedev_5fcheck_5fscratch" "pciedev_check_scratch" (
      target "../pciedev__rw__exp_8c.html#a172e512fecea4c8923a8b2bd11cd9f30"
        "pciedev_check_scratch(struct pciedev_dev *dev, int rmode):&#160;pciedev_rw_exp.c"
      ∷ target "../pciedev__ufn_8h.html#a3a50a2c317ac8543481467429e02b216"
          "pciedev_check_scratch(struct pciedev_dev *, int):&#160;pciedev_rw_exp.c"
      ∷ [])
    ∷ several "pciedev_5ffill_5fprj_5finfo" "pciedev_fill_prj_info" (
        target "../pciedev__ufn_8c.html#afdfa8ea4102cd3b704d207dfbf2f8045"
          "pciedev_fill_prj_info(struct pciedev_dev *bdev, void *baddress):&#160;pciedev_ufn.c"
        ∷ target "../pciedev__ufn_8h.html#a04704b7f8858ac0ba0e15eeafd3ae855"
            "pciedev_fill_prj_info(struct pciedev_dev *, void *):&#160;pciedev_ufn.c"
        ∷ [])
    ∷ several "pciedev_5fget_5fbaddress" "pciedev_get_baddress" (
        target "../pciedev__ufn_8c.html#a8249f6edd275b94c53e9e783a2538dae"
          "pciedev_get_baddress(int br_num, struct pciedev_dev *dev):&#160;pciedev_ufn.c"
        ∷ target "../pciedev__ufn_8h.html#a11ca837547544e14dea204bd54a29bae"
            "pciedev_get_baddress(int, struct pciedev_dev *):&#160;pciedev_ufn.c"
        ∷ [])
    ∷ several "pciedev_5fget_5fbrdinfo" "pciedev_get_brdinfo" (
        target "../pciedev__ufn_8c.html#a0e9c0296a49472322ef2c3179fce5a37"
          "pciedev_get_brdinfo(struct pciedev_dev *bdev):&#160;pciedev_ufn.c"
        ∷ target "../pciedev__ufn_8h.html#aad9373dffa0623f69740cd579caeceb0"
            "pciedev_get_brdinfo(struct pciedev_dev *):&#160;pciedev_ufn.c"
        ∷ [])
    ∷ several "pciedev_5fget_5fbrdnum" "pciedev_get_brdnum" (
        target "../pciedev__ufn_8c.html#af78683c2315d019d4552c0bc6e6fc7fc"
          "pciedev_get_brdnum(struct pci_dev *dev):&#160;pciedev_ufn.c"
        ∷ target "../pciedev__ufn_8h.html#a5892091221ae99bab874c14d9f1dd817"
            "pciedev_get_brdnum(struct pci_dev *):&#160;pciedev_ufn.c"
        ∷ [])
    ∷ several "pciedev_5fget_5fdrvdata" "pciedev_get_drvdata" (
        target "../pciedev__ufn_8c.html#aa4c092a53544e5791a7544cb68d60f61"
          "pciedev_get_drvdata(struct pciedev_dev *dev):&#160;pciedev_ufn.c"
        ∷ target "../pciedev__ufn_8h.html#a248ae92b918dddf4f310a2c0bdf12e26"
            "pciedev_get_drvdata(struct pciedev_dev *):&#160;pciedev_ufn.c"
        ∷ [])
    ∷ several "pciedev_5fget_5fpciedata" "pciedev_get_pciedata" (
        target "../pciedev__ufn_8c.html#a227a41c8651d334fcacecc6161ddc9b9"
          "pciedev_get_pciedata(struct pci_dev *dev):&#160;pciedev_ufn.c"
        ∷ target "../pciedev__ufn_8h.html#acc306e1d829c5958649ced047a9f0b47"
            "pciedev_get_pciedata(struct pci_dev *):&#160;pciedev_ufn.c"
        ∷ [])
    ∷ several "pciedev_5fget_5fprjinfo" "pciedev_get_prjinfo" (
        target "../pciedev__ufn_8c.html#a505869656038dbb8c3d014de193c69c6"
          "pciedev_get_prjinfo(struct pciedev_dev *bdev):&#160;pciedev_ufn.c"
        ∷ target "../pciedev__ufn_8h.html#a7b2e7230722a388f1738872a12e16fab"
            "pciedev_get_prjinfo(struct pciedev_dev *):&#160;pciedev_ufn.c"
        ∷ [])
    ∷ several "pciedev_5fioctl_5fexp" "pciedev_ioctl_exp" (
        target "../pciedev__ioctl__exp_8c.html#ac5a7d2102e3cbf8119042c6267f7b8b1"
          "pciedev_ioctl_exp(struct file *filp, unsigned int *cmd_p, unsigned long *arg_p, pciedev_cdev *pciedev_cdev_m):&#160;pciedev_ioctl_exp.c"
        ∷ target "../pciedev__ufn_8h.html#aa7f3b36a7cc679675ed48898e06b7f63"
            "pciedev_ioctl_exp(struct file *, unsigned int *, unsigned long *, pciedev_cdev *):&#160;pciedev_ioctl_exp.c"
        ∷ [])
    ∷ several "pciedev_5fllseek" "pciedev_llseek" (
        target "../pciedev__rw__exp_8c.html#a5533905d3d36265c8988a01f23248e33"
          "pciedev_llseek(struct file *filp, loff_t off, int frm):&#160;pciedev_rw_exp.c"
        ∷ target "../pciedev__ufn_8h.html#a9e757259c2d591ca648fe06068cdcf84"
            "pciedev_llseek(struct file *, loff_t, int):&#160;pciedev_rw_exp.c"
        ∷ [])
    ∷ several "pciedev_5fopen_5fexp" "pciedev_open_exp" (
        target "../pciedev__ufn_8c.html#a69825f42f3dedf9d9b384bf8ab649799"
          "pciedev_open_exp(struct inode *inode, struct file *filp):&#160;pciedev_ufn.c"
        ∷ target "../pciedev__ufn_8h.html#a018ec19a761491b35bcc290a7c580d70"
            "pciedev_open_exp(struct inode *, struct file *):&#160;pciedev_ufn.c"
        ∷ [])
    ∷ several "pciedev_5fprobe_5fexp" "pciedev_probe_exp" (
        target "../pciedev__probe__exp_8c.html#a0a4ad98251744b7f355f14f7a0b499e0"
          "pciedev_probe_exp(struct pci_dev *dev, const struct pci_device_id *id, struct file_operations *pciedev_fops, pciedev_cdev *pciedev_cdev_p, char *dev_name, int *brd_num):&#160;pciedev_probe_exp.c"
        ∷ target "../pciedev__ufn_8h.html#a056c9a66d474f26e759a4191825eeea1"
            "pciedev_probe_exp(struct pci_dev *, const struct pci_device_id *, struct file_operations *, pciedev_cdev *, char *, int *):&#160;pciedev_probe_exp.c"
        ∷ [])
    ∷ several "pciedev_5fprocinfo" "pciedev_procinfo" (
        target "../pciedev__ufn_8c.html#a72ca703e4a2497c3c844f5334f41db11"
          "pciedev_procinfo(struct file *filp, char *buf, size_t count, loff_t *offp):&#160;pciedev_ufn.c"
        ∷ target "../pciedev__ufn_8h.html#a72ca703e4a2497c3c844f5334f41db11"
            "pciedev_procinfo(struct file *filp, char *buf, size_t count, loff_t *offp):&#160;pciedev_ufn.c"
        ∷ [])
    ∷ several "pciedev_5fread_5fexp" "pciedev_read_exp" (
        target "../pciedev__rw__exp_8c.html#adffa9c9f1526e76ddb2c9f13b23abefb"
          "pciedev_read_exp(struct file *filp, char __user *buf, size_t count, loff_t *f_pos):&#160;pciedev_rw_exp.c"
        ∷ target "../pciedev__ufn_8h.html#acdc8222997f63d934b2c33980ccf622b"
            "pciedev_read_exp(struct file *, char __user *, size_t, loff_t *):&#160;pciedev_rw_exp.c"
        ∷ [])
    ∷ several "pciedev_5frelease_5fexp" "pciedev_release_exp" (
        target "../pciedev__ufn_8c.html#ab17fa9853c5b5fc62e50f61069ff8a8d"
          "pciedev_release_exp(struct inode *inode, struct file *filp):&#160;pciedev_ufn.c"
        ∷ target "../pciedev__ufn_8h.html#a81a53a912c64095350b48158afc566ac"
            "pciedev_release_exp(struct inode *, struct file *):&#160;pciedev_ufn.c"
        ∷ [])
    ∷ several "pciedev_5fremove_5fexp" "pciedev_remove_exp" (
        target "../pciedev__remove__exp_8c.html#a3dea48122c045d73e487b9cccc610561"
          "pciedev_remove_exp(struct pci_dev *dev, pciedev_cdev *pciedev_cdev_m, char *dev_name, int *brd_num):&#160;pciedev_remove_exp.c"
        ∷ target "../pciedev__ufn_8h.html#a8e8bd2dc388062f755d6e768f3e606e5"
            "pciedev_remove_exp(struct pci_dev *dev, pciedev_cdev *, char *, int *):&#160;pciedev_remove_exp.c"
        ∷ [])
    ∷ several "pciedev_5fset_5fdrvdata" "pciedev_set_drvdata" (
        target "../pciedev__ufn_8c.html#a2ba88ce564225bbd3b049039527515b5"
          "pciedev_set_drvdata(struct pciedev_dev *dev, void *data):&#160;pciedev_ufn.c"
        ∷ target "../pciedev__ufn_8h.html#ab120c58326f82de487f963fa675b93ae"
            "pciedev_set_drvdata(struct pciedev_dev *, void *):&#160;pciedev_ufn.c"
        ∷ [])
    ∷ several "pciedev_5fsetup_5finterrupt" "pciedev_setup_interrupt" (
        target "../pciedev__ufn_8c.html#af9ec8fdb0f4113c211110358b8b847f3"
          "pciedev_setup_interrupt(irqreturn_t(*pciedev_interrupt)(int, void *, struct pt_regs *), struct pciedev_dev *pdev, char *dev_name):&#160;pciedev_ufn.c"
        ∷ target "../pciedev__ufn_8h.html#ae8f130b4ff23110a501ab00b5928ee94"
            "pciedev_setup_interrupt(irqreturn_t(*pciedev_interrupt)(int, void *, struct pt_regs *), struct pciedev_dev *, char *):&#160;pciedev_ufn.c"
        ∷ [])
    ∷ several "pciedev_5fwrite_5fexp" "pciedev_write_exp" (
        target "../pciedev__rw__exp_8c.html#ab9c8b3bd33ef7a2861205b46e495d8d6"
          "pciedev_write_exp(struct file *filp, const char __user *buf, size_t count, loff_t *f_pos):&#160;pciedev_rw_exp.c"
        ∷ target "../pciedev__ufn_8h.html#aeb1b14d3cfd3cc60cc552f4c16c6493b"
            "pciedev_write_exp(struct file *, const char __user *, size_t, loff_t *):&#160;pciedev_rw_exp.c"
        ∷ [])
    ∷ []

abbrev pub functions_72 : List SearchEntry
functions_72 =
    several "register_5fupciedev_5fproc" "register_upciedev_proc" (
      target "../pciedev__ufn_8c.html#a32f12fc6b2bf9b68659745c699738fdb"
        "register_upciedev_proc(int num, char *dfn, struct pciedev_dev *p_upcie_dev, struct pciedev_cdev *p_upcie_cdev):&#160;pciedev_ufn.c"
      ∷ target "../pciedev__ufn_8h.html#a32f12fc6b2bf9b68659745c699738fdb"
          "register_upciedev_proc(int num, char *dfn, struct pciedev_dev *p_upcie_dev, struct pciedev_cdev *p_upcie_cdev):&#160;pciedev_ufn.c"
      ∷ [])
    ∷ []

abbrev pub functions_75 : List SearchEntry
functions_75 =
    several "unregister_5fupciedev_5fproc" "unregister_upciedev_proc" (
      target "../pciedev__ufn_8c.html#a604e88255fa0f468cbc7c046ce560db9"
        "unregister_upciedev_proc(int num, char *dfn):&#160;pciedev_ufn.c"
      ∷ target "../pciedev__ufn_8h.html#a604e88255fa0f468cbc7c046ce560db9"
          "unregister_upciedev_proc(int num, char *dfn):&#160;pciedev_ufn.c"
      ∷ [])
    ∷ several "upciedev_5fcleanup_5fmodule_5fexp" "upciedev_cleanup_module_exp" (
        target "../pciedev__ufn_8c.html#a9210f5f3452bcfc6c7d0f982688ca833"
          "upciedev_cleanup_module_exp(pciedev_cdev **pciedev_cdev_p):&#160;pciedev_ufn.c"
        ∷ target "../pciedev__ufn_8h.html#aa7b73bf550ed4243740e152276bae7b0"
            "upciedev_cleanup_module_exp(pciedev_cdev **):&#160;pciedev_ufn.c"
        ∷ [])
    ∷ several "upciedev_5finit_5fmodule_5fexp" "upciedev_init_module_exp" (
        target "../pciedev__ufn_8c.html#ac43f73e71ebb1f2386f0a238d0be6404"
          "upciedev_init_module_exp(pciedev_cdev **pciedev_cdev_pp, struct file_operations *pciedev_fops, char *dev_name):&#160;pciedev_ufn.c"
        ∷ target "../pciedev__ufn_8h.html#a3881936381992a7936d832e84260e450"
            "upciedev_init_module_exp(pciedev_cdev **, struct file_operations *, char *):&#160;pciedev_ufn.c"
        ∷ [])
    ∷ []
